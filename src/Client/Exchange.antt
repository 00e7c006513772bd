-- ===== src/Client/Exchange.antt =====
-- `transact`, `doRequestV2c` and `socketFor` of src/Client.cpp: one exchange with its retransmissions.
pub mod Bounds
pub mod Justified
use snmpio.Common.{
  ℕ, zero, suc, Bool, true, false, not, ◌&&◌, ◌||◌, Option, none, some, List, [], ◌∷◌,
  if◌then◌else◌,
}
use snmpio.Common.Int32.{ℤ, pos, negsuc}
use snmpio.Error.{Errc, client_stopped, timeout}
use snmpio.Value.{Octets}
use snmpio.Pdu.{Pdu, encode_v2c_message}
use snmpio.Usm.{Crypto}
use snmpio.Client.{
  Impl, Pending, Endpoint, Failure, library, agent, aborted, socket, Target, Response, no_response,
  new_pending, to_result,
}
use snmpio.Client.Ids.{next_id}
use snmpio.Client.Strand.{
  Cancellation, no_signal, soft, terminal, Run, wait, make_shared, emplace_pending, erase_pending,
}

-- The attempts that `attempt <= retries` allows.
unfoldable pub attempts : ℤ → ℕ
attempts (pos n) = suc n
attempts (negsuc n) = 0

unfoldable pub is_aborted : Cancellation → Bool
is_aborted terminal = true
is_aborted _ = false

unfoldable pub is_cancelled : Cancellation → Bool
is_cancelled no_signal = false
is_cancelled _ = true

unfoldable pub soft_cancelled : Cancellation → Bool
soft_cancelled c = is_cancelled c && not (is_aborted c)

abbrev pub is_some {ℓ} : {A : Type ℓ} → Option A → Bool
is_some none = false
is_some (some a) = true

unfoldable pub answered_at : ℕ → Impl → Bool
answered_at ref s = elim (s.requests ref) [ none ↦ false | some p ↦ p.answered ]

unfoldable pub drop_reason_at : ℕ → Impl → Option Errc
drop_reason_at ref s = elim (s.requests ref) [ none ↦ none | some p ↦ p.drop_reason ]

unfoldable pub response_at : ℕ → Impl → Pdu
response_at ref s = elim (s.requests ref) [ none ↦ new_pending.response | some p ↦ p.response ]

-- What `transact` returns behind its loop; `ec` is what the last send ended with.
unfoldable pub verdict : ℕ → Option ℕ → Run → Option Failure
verdict ref ec r =
    if is_aborted r.cancelled
    then some aborted
    else if answered_at ref r.impl && not r.impl.stopping
    then none
    else if is_cancelled r.cancelled
    then some aborted
    else if r.impl.stopping
    then some (library client_stopped)
    else elim ec [
      | some e ↦ some (socket e)
      | none ↦ elim (drop_reason_at ref r.impl) [
        | some e ↦ some (library e)
        | none ↦ some (library timeout)
      ]
    ]

-- What an operation makes of the end of its exchange.
unfoldable pub completed : ℕ → Run × Option Failure → Run × (Option Failure × Response)
completed ref (r, some e) = (r, (some e, no_response))
completed ref (r, none) = (r, to_result (response_at ref r.impl))

-- `is_v6` and `open_socket` are the network library's: the family of an address, and how opening a
-- socket of that family ends at a time.
module _ (crypto : Crypto) (is_v6 : Endpoint → Bool) (open_socket : Bool → ℕ → Option ℕ) where
  unfoldable pub socket_for : Endpoint → Run → Run × Option ℕ
  socket_for to r =
      let v6 = is_v6 to in
      if (if v6 then r.impl.has_v6 else r.impl.has_v4)
      then (r, none)
      else elim (open_socket v6 r.now) [
        | some e ↦ (r, some e)
        | none ↦ (
          record r {
            impl = if v6 then record r.impl { has_v6 = true } else record r.impl { has_v4 = true };
          },
          none,
        )
      ]

  -- `async_send_to`
  unfoldable pub send : Endpoint → Octets → Run → Run × Option ℕ
  send to datagram r = wait crypto (record r { sent = (datagram, to) ∷ r.sent })

  -- The loop over the attempts: the run, and the last `ec`.
  unfoldable pub attempt_loop : ℕ → Endpoint → Octets → ℕ → Run → Run × Option ℕ
  attempt_loop zero to datagram ref r = (r, none)
  attempt_loop (suc n) to datagram ref r =
      let (r1, ec) = send to datagram r in
      let r2 = (wait crypto r1).0 in
      let rest = attempt_loop n to datagram ref r2 in
      if is_some ec || r1.impl.stopping
      then (r1, ec)
      else if answered_at ref r2.impl || r2.impl.stopping || is_aborted r2.cancelled
      then (r2, none)
      else if soft_cancelled r2.cancelled
      then ((wait crypto r2).0, none)
      else rest

  -- Between the entry into the table and the removal from it.
  unfoldable pub exchange : Target → Octets → ℤ → ℕ → Run → Run × Option Failure
  exchange target datagram key ref r =
      let r1 = record r { impl = emplace_pending key ref r.impl } in
      let (r2, ec) = attempt_loop (attempts target.retries) target.endpoint datagram ref r1 in
      let r3 = record r2 { impl = erase_pending key r2.impl } in (r3, verdict ref ec r3)

  unfoldable pub transact : Target → Octets → ℤ → ℕ → Run → Run × Option Failure
  transact target datagram key ref r =
      if r.impl.stopping
      then (r, some (library client_stopped))
      else (let (r1, opened) = socket_for target.endpoint r in
          elim opened [
            | some e ↦ (r1, some (socket e))
            | none ↦ exchange target datagram key ref r1
          ])

  -- A coroutine of its own starts with no signal seen.
  unfoldable pub request_v2c :
      Target → Octets → Octets → ℤ → Impl → Run → Run × (Option Failure × Response)
  request_v2c target community datagram id s r =
      let (s1, ref) =
        make_shared
          (record new_pending { from = target.endpoint; community = community; request_id = id })
          s in
      completed ref
        (transact target datagram id ref (record r { impl = s1; cancelled = no_signal }))

  unfoldable pub do_request_v2c : Target → Octets → Pdu → Run → Run × (Option Failure × Response)
  do_request_v2c target community pdu r =
      if r.impl.stopping
      then (r, (some (library client_stopped), no_response))
      else (let (s, id) = next_id r.impl in
          let (ec, datagram) = encode_v2c_message community (record pdu { request_id = id }) in
          elim ec [
            | some e ↦
                (record r { impl = s; cancelled = no_signal }, (some (library e), no_response))
            | none ↦ request_v2c target community datagram id s r
          ])
