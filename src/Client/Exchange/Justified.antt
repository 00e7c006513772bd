-- ===== src/Client/Exchange/Justified.antt =====
-- `transact` and `doRequestV2c` of src/Client.cpp: an operation that succeeds has the answer of the Target
-- that it asked.
use snmpio.Common.{
  ℕ, zero, suc, Bool, true, false, ◌||◌, Option, none, some, ◌∷◌, ◌≡◌, ◌≢◌, ◌⊎◌, inl, inr, refl,
  sym, ap, ◌∙◌, subst, arith, Bool-cases, Option-cases, Any, Any-map,
}
use snmpio.Common.Int32.{ℤ}
use snmpio.Error.{Errc, client_stopped}
use snmpio.Value.{Octets}
use snmpio.Pdu.{Pdu, V2cMessage, encode_v2c_message, decode_v2c_message}
use snmpio.Client.Report.{is_response}
use snmpio.Usm.{Crypto}
use snmpio.Client.{
  Impl, Pending, Endpoint, Failure, Target, Response, int_key, new_pending, to_result, library,
  agent, aborted, socket, no_response,
}
use snmpio.Client.Ids.{next_id}
use snmpio.Client.Deliver.Reply.{SameRequest}
use snmpio.Client.Deliver.Receive.{Heard, Justifies, IsSound}
use snmpio.Client.Strand.{Run, no_signal, wait, erase_pending, emplace_pending, make_shared}
use snmpio.Client.Strand.Sound.{
  erase_pending-IsSound, emplace_pending-IsSound, make_shared-IsSound, elsewhere-IsSound,
}
use snmpio.Client.Strand.Holds.{Holds, wait-Holds, SameRequest-refl}
use snmpio.Client.Exchange.Bounds.{transact-cases}
use snmpio.Client.Exchange.{
  attempts, attempt_loop, exchange, transact, send, socket_for, verdict, is_some, answered_at,
  response_at, is_aborted, soft_cancelled, completed, request_v2c, do_request_v2c,
}

module _ (crypto : Crypto) (is_v6 : Endpoint → Bool) (open_socket : Bool → ℕ → Option ℕ) where
  attempt_loop-Holds :
      (n : ℕ) (to : Endpoint) (datagram : Octets) (ref : ℕ) (p : Pending) (r : Run)
      → Holds crypto ref p r
      → Holds crypto ref p (attempt_loop crypto is_v6 open_socket n to datagram ref r).0
  unfolding attempt_loop send
  attempt_loop-Holds zero to datagram ref p r h = h
  attempt_loop-Holds (suc n) to datagram ref p r h =
      elim (Bool-cases (is_some s1.1 || s1.0.impl.stopping)) [
        | inl c ↦ rw c h1
        | inr c ↦
            elim (Bool-cases
              (answered_at ref r2.impl || r2.impl.stopping || is_aborted r2.cancelled)) [
                | inl d ↦ rw (c, d) h2
                | inr d ↦ elim (Bool-cases (soft_cancelled r2.cancelled)) [
                  | inl e ↦ rw (c, d, e) (wait-Holds crypto ref p r2 h2)
                  | inr e ↦ rw (c, d, e) (attempt_loop-Holds n to datagram ref p r2 h2)
                ]
              ]
      ]
    where
      s1 : Run × Option ℕ
      s1 = wait crypto (record r { sent = (datagram, to) ∷ r.sent })

      r2 : Run
      r2 = (wait crypto s1.0).0

      h1 : Holds crypto ref p s1.0
      h1 =
          wait-Holds crypto ref p (record r { sent = (datagram, to) ∷ r.sent })
            (record { sound = h.sound; kept = h.kept })

      h2 : Holds crypto ref p r2
      h2 = wait-Holds crypto ref p s1.0 h1

  socket_for-cases :
      (to : Endpoint) (r : Run)
      → ((socket_for crypto is_v6 open_socket to r).0 ≡ r)
        ⊎ (((socket_for crypto is_v6 open_socket to r).0
              ≡ record r { impl = record r.impl { has_v6 = true } })
            ⊎ ((socket_for crypto is_v6 open_socket to r).0
                ≡ record r { impl = record r.impl { has_v4 = true } }))
  unfolding socket_for
  socket_for-cases to r = ground arith

  socket_for-Holds :
      (to : Endpoint) (ref : ℕ) (p : Pending) (r : Run)
      → Holds crypto ref p r
      → Holds crypto ref p (socket_for crypto is_v6 open_socket to r).0
  socket_for-Holds to ref p r h = elim (socket_for-cases to r) [
    | inl e ↦ subst (Holds crypto ref p) (sym e) h
    | inr (inl e) ↦ subst (Holds crypto ref p) (sym e) (record {
      sound = elsewhere-IsSound crypto r.heard r.impl _ refl refl refl (λ d. d) h.sound;
      kept = h.kept;
    })
    | inr (inr e) ↦ subst (Holds crypto ref p) (sym e) (record {
      sound = elsewhere-IsSound crypto r.heard r.impl _ refl refl refl (λ d. d) h.sound;
      kept = h.kept;
    })
  ]

  verdict-none :
      (ref : ℕ) (ec : Option ℕ) (r : Run)
      → verdict ref ec r ≡ none
      → (answered_at ref r.impl ≡ true)
        × (r.impl.stopping ≡ false)
        × (is_aborted r.cancelled ≡ false)
  unfolding verdict
  verdict-none ref ec r h = ground arith

  -- An answer that the run's datagrams account for.
  abbrev pub IsAnswered : Pending → Run → Type 0
  IsAnswered p r =
      (q : Pending) × SameRequest p q × (q.answered ≡ true) × Any (Justifies crypto q) r.heard

  answered_at-Holds :
      (ref : ℕ) (p : Pending) (r : Run)
      → Holds crypto ref p r
      → answered_at ref r.impl ≡ true
      → (q : Pending) × SameRequest p q
        × (q.answered ≡ true)
        × Any (Justifies crypto q) r.heard
        × (response_at ref r.impl ≡ q.response)
  unfolding answered_at response_at
  answered_at-Holds ref p r h a =
      let (q, l, k) = h.kept in
      let b : q.answered ≡ true = ground (arith, l) in
      (q, k, b, h.sound.justified ref q l b, ground (arith, l))

  verdict-agent : (ref : ℕ) (ec : Option ℕ) (r : Run) (n : ℤ) → verdict ref ec r ≢ some (agent n)
  unfolding verdict
  verdict-agent ref ec r n h = ground arith

  exchange-Holds :
      (target : Target) (datagram : Octets) (ref : ℕ) (p : Pending) (r : Run)
      → Holds crypto ref p r
      → Holds crypto ref p (exchange crypto is_v6 open_socket target datagram p.request_id ref r).0
  unfolding exchange
  exchange-Holds target datagram ref p r h =
      let (q, l, k) = h.kept in
      let r1 = record r { impl = emplace_pending p.request_id ref r.impl } in
      let h1 : Holds crypto ref p r1 = record {
        sound =
            emplace_pending-IsSound crypto r.heard r.impl p.request_id ref q l k.request_id h.sound;
        kept = unfold emplace_pending in h.kept;
      } in
      let h2 = attempt_loop-Holds (attempts target.retries) target.endpoint datagram ref p r1 h1 in
      record {
        sound = erase_pending-IsSound crypto _ _ p.request_id h2.sound;
        kept = unfold erase_pending in h2.kept;
      }

  exchange-none :
      (target : Target) (datagram : Octets) (key : ℤ) (ref : ℕ) (r : Run)
      → (exchange crypto is_v6 open_socket target datagram key ref r).1 ≡ none
      → answered_at ref (exchange crypto is_v6 open_socket target datagram key ref r).0.impl ≡ true
  unfolding exchange
  exchange-none target datagram key ref r e = (verdict-none ref _ _ e).0

  exchange-agent :
      (target : Target) (datagram : Octets) (key : ℤ) (ref : ℕ) (r : Run) (n : ℤ)
      → (exchange crypto is_v6 open_socket target datagram key ref r).1 ≢ some (agent n)
  unfolding exchange
  exchange-agent target datagram key ref r n = verdict-agent ref _ _ n

  -- What is known of an exchange that is over.
  abbrev pub HasEnded : ℕ → Pending → Run × Option Failure → Type 0
  HasEnded ref p (r, failure) =
      Holds crypto ref p r
      × (failure ≡ none → answered_at ref r.impl ≡ true)
      × ((n : ℤ) → failure ≢ some (agent n))

  pub transact-HasEnded :
      (target : Target) (datagram : Octets) (ref : ℕ) (p : Pending) (r : Run)
      → Holds crypto ref p r
      → HasEnded ref p (transact crypto is_v6 open_socket target datagram p.request_id ref r)
  transact-HasEnded target datagram ref p r h =
      let opened = (socket_for crypto is_v6 open_socket target.endpoint r).0 in
      let h1 = socket_for-Holds target.endpoint ref p r h in
      elim (transact-cases crypto is_v6 open_socket target datagram p.request_id ref r) [
        | inl e ↦ subst (HasEnded ref p) (sym e) (h, λ f. absurd (cc), λ n f. cc)
        | inr (inl (code, e)) ↦ subst (HasEnded ref p) (sym e) (h1, λ f. absurd (cc), λ n f. cc)
        | inr (inr e) ↦ subst (HasEnded ref p) (sym e) (
          exchange-Holds target datagram ref p opened h1,
          exchange-none target datagram p.request_id ref opened,
          exchange-agent target datagram p.request_id ref opened,
        )
      ]

-- The outcomes that carry an Agent's Response.
abbrev pub IsReply : Option Failure → Type 0
IsReply none = Unit {0}
IsReply (some (agent n)) = Unit {0}
IsReply (some _) = ⊥

-- The datagram is the Response, from the Target asked and under the Community and the number used,
-- that the outcome tells of.
abbrev pub IsGiven : Octets → Endpoint → ℤ → Option Failure × Response → Heard → Type 0
IsGiven community to id outcome (datagram, from) =
    (msg : V2cMessage) × ((decode_v2c_message datagram).1 ≡ some msg)
    × (from ≡ to)
    × (is_response msg.pdu.type ≡ true)
    × (msg.community ≡ community)
    × (msg.pdu.request_id ≡ id)
    × (outcome ≡ to_result msg.pdu)

module _ (crypto : Crypto) (is_v6 : Endpoint → Bool) (open_socket : Bool → ℕ → Option ℕ) where
  given :
      (p q : Pending) (h : Heard)
      → p.v3 ≡ false
      → SameRequest p q
      → Justifies crypto q h
      → IsGiven p.community p.from p.request_id (to_result q.response) h
  given p q (datagram, from) v k (inl (msg, d, r, i, w)) = (
    msg,
    d,
    w.source ∙ k.from,
    r,
    w.community ∙ k.community,
    i ∙ k.request_id,
    ap to_result w.response,
  )
  given p q (datagram, from) v k (inr (msg, d, i, w)) = absurd (cc (w.version, k.v3, v))

  abbrev asked : Target → Octets → ℤ → Pending
  asked target community id = record new_pending {
    from = target.endpoint;
    community = community;
    request_id = id;
  }

  -- An operation that asked under v2c is over.
  abbrev HasAnswer : Pending → Run × (Option Failure × Response) → Type 0
  HasAnswer p (r, outcome) =
      IsSound crypto r.heard r.impl
      × (IsReply outcome.0 → Any (IsGiven p.community p.from p.request_id outcome) r.heard)

  completed-HasAnswer :
      (ref : ℕ) (p : Pending) (r : Run) (failure : Option Failure)
      → p.v3 ≡ false
      → HasEnded crypto is_v6 open_socket ref p (r, failure)
      → HasAnswer p (completed ref (r, failure))
  unfolding completed
  completed-HasAnswer ref p r (some (agent n)) v (h, a, never) = absurd (never n refl)
  completed-HasAnswer ref p r (some (library e)) v (h, a, never) = (h.sound, λ x. absurd x)
  completed-HasAnswer ref p r (some aborted) v (h, a, never) = (h.sound, λ x. absurd x)
  completed-HasAnswer ref p r (some (socket e)) v (h, a, never) = (h.sound, λ x. absurd x)
  completed-HasAnswer ref p r none v (h, a, never) =
      let (q, k, b, j, e) = answered_at-Holds crypto is_v6 open_socket ref p r h (a refl) in
      (
        h.sound,
        λ x.
            Any-map (Justifies crypto q)
              (IsGiven p.community p.from p.request_id (to_result (response_at ref r.impl))) r.heard
              (λ d j1.
                subst (λ (z : Pdu). IsGiven p.community p.from p.request_id (to_result z) d) (sym e)
                  (given p q d v k j1))
              j,
      )

  request_v2c-HasAnswer :
      (target : Target) (community datagram : Octets) (id : ℤ) (s : Impl) (r : Run)
      → IsSound crypto r.heard s
      → HasAnswer
          (asked target community id)
          (request_v2c crypto is_v6 open_socket target community datagram id s r)
  unfolding request_v2c
  request_v2c-HasAnswer target community datagram id s r w =
      let p = asked target community id in
      let (w1, here) = make_shared-IsSound crypto r.heard s p refl w in
      let r1 = record r { impl = (make_shared p s).0; cancelled = no_signal } in
      let out = transact crypto is_v6 open_socket target datagram id (make_shared p s).1 r1 in
      completed-HasAnswer (make_shared p s).1 p out.0 out.1 refl (
        transact-HasEnded crypto is_v6 open_socket target datagram (make_shared p s).1 p r1
          (record { sound = w1; kept = (p, here, SameRequest-refl p) }))

  pub next_id-IsSound :
      (r : Run) → IsSound crypto r.heard r.impl → IsSound crypto r.heard (next_id r.impl).0
  unfolding next_id
  next_id-IsSound r w =
      elsewhere-IsSound crypto r.heard r.impl (next_id r.impl).0 refl refl refl (λ d. d) w

  pub do_request_v2c-cases :
      (target : Target) (community : Octets) (pdu : Pdu) (r : Run)
      → (do_request_v2c crypto is_v6 open_socket target community pdu r
          ≡ (r, (some (library client_stopped), no_response)))
        ⊎ (((e : Errc) × (do_request_v2c crypto is_v6 open_socket target community pdu r ≡ (
          record r { impl = (next_id r.impl).0; cancelled = no_signal },
          (some (library e), no_response),
        )))
            ⊎ (do_request_v2c crypto is_v6 open_socket target community pdu r
                ≡ request_v2c crypto is_v6 open_socket target community
                    (encode_v2c_message community (record pdu { request_id = r.impl.next_id })).1
                    r.impl.next_id
                    (next_id r.impl).0
                    r))
  unfolding do_request_v2c next_id
  do_request_v2c-cases target community pdu r = elim (Bool-cases r.impl.stopping) [
    | inl c ↦ inl (ground (arith, c))
    | inr c ↦
        elim (Option-cases
          (encode_v2c_message community (record pdu { request_id = r.impl.next_id })).0) [
            | inr (e, d) ↦ inr (inl (e, ground (arith, c, d)))
            | inl d ↦ inr (inr (ground (arith, c, d)))
          ]
  ]

  -- Whatever else the strand does while an SNMPv2c request waits (datagrams from anywhere, other
  -- operations, signals, Stopping), if the request starts from a sound state and completes with a
  -- Response, with or without an error-status, then one of the datagrams that came in was from the
  -- Target asked and decodes to a Response with the Community and the number used, of which the
  -- completion is what toResult makes; and a sound state stays sound.
  pub do_request_v2c-HasAnswer :
      (target : Target) (community : Octets) (pdu : Pdu) (r : Run)
      → IsSound crypto r.heard r.impl
      → IsSound crypto
          (do_request_v2c crypto is_v6 open_socket target community pdu r).0.heard
          (do_request_v2c crypto is_v6 open_socket target community pdu r).0.impl
        × (IsReply (do_request_v2c crypto is_v6 open_socket target community pdu r).1.0
            → Any
                (IsGiven community target.endpoint r.impl.next_id
                  (do_request_v2c crypto is_v6 open_socket target community pdu r).1)
                (do_request_v2c crypto is_v6 open_socket target community pdu r).0.heard)
  do_request_v2c-HasAnswer target community pdu r w =
      let p = asked target community r.impl.next_id in
      elim (do_request_v2c-cases target community pdu r) [
        | inl e ↦ subst (HasAnswer p) (sym e) (w, λ x. absurd x)
        | inr (inl (code, e)) ↦ subst (HasAnswer p) (sym e) (next_id-IsSound r w, λ x. absurd x)
        | inr (inr e) ↦ subst (HasAnswer p) (sym e) (
            request_v2c-HasAnswer target community
              (encode_v2c_message community (record pdu { request_id = r.impl.next_id })).1
              r.impl.next_id (next_id r.impl).0 r (next_id-IsSound r w))
      ]
