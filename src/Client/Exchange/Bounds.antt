-- ===== src/Client/Exchange/Bounds.antt =====
-- What `transact` of src/Client.cpp sends, and what it leaves in the table of requests.
use snmpio.Common.{
  ℕ, ◌≤◌, Bool, true, Option, none, some, ◌++◌, ◌≡◌, ◌⊎◌, inl, inr, arith, Bool-cases, Option-cases,
  replicate,
}
use snmpio.Common.Int32.{ℤ}
use snmpio.Error.{client_stopped}
use snmpio.Value.{Octets}
use snmpio.Usm.{Crypto}
use snmpio.Client.{Endpoint, Failure, library, socket, Target, int_key}
use snmpio.Client.Strand.{Run}
use snmpio.Client.Exchange.{attempts, exchange, transact, socket_for, is_some}

-- Some copies of a datagram were sent to a Target, at most `n`, and one at least if `n` allows any.
abbrev pub HasSent : ℕ → Endpoint → Octets → Run → Run → Type 0
HasSent n to datagram r r' =
    (k : ℕ) × (k ≤ n) × (1 ≤ n → 1 ≤ k) × (r'.sent ≡ replicate k (datagram, to) ++ r.sent)

-- The outcome of `transact`: it was over before it began, or it made the attempts that it may and
-- left nothing in the table.
abbrev pub HasTransacted : Target → Octets → ℤ → Run → Run × Option Failure → Type 0
HasTransacted target datagram key r (r', failure) =
    ((r'.sent ≡ r.sent) × (r'.impl.pending ≡ r.impl.pending) × (is_some failure ≡ true))
    ⊎ (HasSent (attempts target.retries) target.endpoint datagram r r'
        × (r'.impl.pending key ≡ none))

module _ (crypto : Crypto) (is_v6 : Endpoint → Bool) (open_socket : Bool → ℕ → Option ℕ) where
  pub transact-cases :
      (target : Target) (datagram : Octets) (key : ℤ) (ref : ℕ) (r : Run)
      → (transact crypto is_v6 open_socket target datagram key ref r
          ≡ (r, some (library client_stopped)))
        ⊎ (((e : ℕ) × (transact crypto is_v6 open_socket target datagram key ref r
                ≡ ((socket_for crypto is_v6 open_socket target.endpoint r).0, some (socket e))))
            ⊎ (transact crypto is_v6 open_socket target datagram key ref r
                ≡ exchange crypto is_v6 open_socket target datagram key ref
                    (socket_for crypto is_v6 open_socket target.endpoint r).0))
  unfolding transact
  transact-cases target datagram key ref r = elim (Bool-cases r.impl.stopping) [
    | inl c ↦ inl (ground (arith, c))
    | inr c ↦ elim (Option-cases (socket_for crypto is_v6 open_socket target.endpoint r).1) [
      | inr (e, d) ↦ inr (inl (e, ground (arith, c, d)))
      | inl d ↦ inr (inr (ground (arith, c, d)))
    ]
  ]
