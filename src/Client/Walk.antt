-- ===== src/Client/Walk.antt =====
-- `doWalk` and `doWalkCollect` of src/Client.cpp, over whatever carries out one request.
pub mod Scan
pub mod Rank
pub mod Ends
pub mod Ordered
pub mod V2c
use snmpio.Common.{
  ℕ, zero, suc, ◌+◌, ◌/◌, ◌^◌, Bool, true, false, not, ◌&&◌, ◌||◌, Option, none, some, List, [],
  ◌∷◌, ◌++◌, if◌then◌else◌,
}
use snmpio.Common.Int32.{ℤ, pos, negsuc, pos_part, less_int, same_int}
use snmpio.Error.{client_stopped, walk_incomplete, missing_varbind, non_increasing_oid}
use snmpio.Oid.{Oid, is_prefix_of, less}
use snmpio.Value.{Varbind, is_exception}
use snmpio.Pdu.{Pdu, PduType}
use snmpio.Client.{
  Failure, library, agent, aborted, socket, Response, to_varbinds, make_pdu, make_bulk_pdu,
}
use snmpio.Client.Strand.{Cancellation, no_signal, soft, terminal}

-- What a Walk uses of the client: one request, and what it asks about cancellation and Stopping.
pub record Requester (S : Type 0) : Type 0 where
  pub do_request : Pdu → S → S × (Option Failure × Response)
  pub cancelled : S → Cancellation
  pub stopping : S → Bool

-- The caller's handler: false stops the Walk.
abbrev pub BatchHandler : Type 0 → Type 0
BatchHandler S = List Varbind → S → S × Bool

unfoldable pub stop_now : Cancellation → Option Failure
stop_now terminal = some aborted
stop_now soft = some (library walk_incomplete)
stop_now no_signal = none

unfoldable pub walk_request : Oid → ℤ → Pdu
walk_request current max_repetitions =
    if not (less_int (pos 0) max_repetitions)
    then make_pdu PduType.get_next (to_varbinds (current ∷ []))
    else make_bulk_pdu (to_varbinds (current ∷ [])) (pos 0) max_repetitions

-- `ec == ErrorStatus::TooBig`
unfoldable pub is_too_big : Option Failure → Bool
is_too_big (some (agent n)) = same_int n (pos 2)
is_too_big _ = false

abbrev pub half : ℤ → ℤ
half n = pos (pos_part n / 2)

-- The loop over a Response: whether the Walk is done, the last name, and the batch; none is a name that
-- does not increase.
unfoldable pub scan : Oid → Oid → List Varbind → Option (Bool × Oid × List Varbind)
scan base current [] = some (false, current, [])
scan base current (vb ∷ vbs) =
    let rest = scan base vb.name vbs in
    if is_exception vb.val || not (is_prefix_of base vb.name)
    then some (true, current, [])
    else if not (less current vb.name)
    then none
    else elim rest [ none ↦ none | some (done, last, batch) ↦ some (done, last, vb ∷ batch) ]

module _ {S : Type 0} (requester : Requester S) (on_batch : BatchHandler S) where
  open requester use {do_request, cancelled, stopping}

  -- The state and the error code; none means that the rounds ran out.
  abbrev pub Walked : Type 0
  Walked = Option (S × Option Failure)

  -- Behind the scan; `again` is the next round.
  unfoldable pub hand_over :
      (Oid → ℤ → S → Walked) → ℤ → S → Option (Bool × Oid × List Varbind) → Walked
  hand_over again max s none = some (s, some (library non_increasing_oid))
  hand_over again max s (some (true, last, [])) = some (s, none)
  hand_over again max s (some (false, last, [])) = again last max s
  hand_over again max s (some (done, last, vb ∷ batch)) =
      let (s1, more) = on_batch (vb ∷ batch) s in
      elim more [
        | false ↦ some (s1, some (library walk_incomplete))
        | true ↦ elim done [ true ↦ some (s1, none) | false ↦ again last max s1 ]
      ]

  unfoldable pub take_response : (Oid → ℤ → S → Walked) → Oid → Oid → ℤ → S → List Varbind → Walked
  take_response again base current max s [] = some (s, some (library missing_varbind))
  take_response again base current max s (vb ∷ vbs) =
      hand_over again max s (scan base current (vb ∷ vbs))

  -- Behind the request.
  unfoldable pub handle_reply :
      (Oid → ℤ → S → Walked) → Oid → Oid → ℤ → S → Option Failure → Response → Walked
  handle_reply again base current max s ec resp = elim (is_too_big ec && less_int (pos 1) max) [
    | true ↦ again current (half max) s
    | false ↦ elim ec [
      | some e ↦ elim (stop_now (cancelled s)) [
        | some stop ↦ some (s, some stop)
        | none ↦ some (s, some e)
      ]
      | none ↦ elim (stopping s) [
        | true ↦ some (s, some (library client_stopped))
        | false ↦ take_response again base current max s resp.varbinds
      ]
    ]
  ]

  unfoldable pub walk_loop : ℕ → Oid → Oid → ℤ → S → Walked
  walk_loop zero base current max s = none
  walk_loop (suc n) base current max s = elim (stop_now (cancelled s)) [
    | some stop ↦ some (s, some stop)
    | none ↦
        let (s1, (ec, resp)) = do_request (walk_request current max) s in
        handle_reply (walk_loop n base) base current max s1 ec resp
  ]

-- Each round halves `maxRepetitions` or reaches a greater name, and there are fewer than (2^32 + 1)^128
-- names.
abbrev pub rounds : ℤ → ℕ
rounds max = suc ((2 ^ 32 + 1) ^ 128 + pos_part max)

unfoldable pub do_walk :
    {S : Type 0} → Requester S → BatchHandler S → Oid → ℤ → S → Option (S × Option Failure)
do_walk requester on_batch base max s = walk_loop requester on_batch (rounds max) base base max s

-- The requester beside what was collected, and the handler that collects.
abbrev pub collecting : {S : Type 0} → Requester S → Requester (S × List Varbind)
collecting q = record {
  do_request = λ pdu sc. let (s1, res) = q.do_request pdu sc.0 in ((s1, sc.1), res);
  cancelled = λ sc. q.cancelled sc.0;
  stopping = λ sc. q.stopping sc.0;
}

abbrev pub collect : {S : Type 0} → BatchHandler (S × List Varbind)
collect batch (s, collected) = ((s, collected ++ batch), true)

-- An aborted Walk drops what it collected.
unfoldable pub kept : Option Failure → List Varbind → List Varbind
kept (some aborted) collected = []
kept _ collected = collected

unfoldable pub collect_result :
    {S : Type 0}
    → Option ((S × List Varbind) × Option Failure)
    → Option (S × (Option Failure × List Varbind))
collect_result none = none
collect_result (some ((s, collected), ec)) = some (s, (ec, kept ec collected))

unfoldable pub do_walk_collect :
    {S : Type 0} → Requester S → Oid → ℤ → S → Option (S × (Option Failure × List Varbind))
do_walk_collect q base max s = collect_result (do_walk (collecting q) collect base max (s, []))
