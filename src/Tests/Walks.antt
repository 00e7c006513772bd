-- ===== src/Tests/Walks.antt =====
-- A Walk over an agent with two values.
use snmpio.Common.{ℕ, ◌+◌, true, false, Option, none, some, [], ◌∷◌, ◌≡◌, refl, arith}
use snmpio.Common.Int32.{pos}
use snmpio.Oid.{Oid, less, is_prefix_of, same_until}
use snmpio.Value.{Value, Varbind, ValueException, is_exception}
use snmpio.Client.{Failure, aborted}
use snmpio.Client.Strand.{no_signal}
use snmpio.Client.Walk.{
  Requester, do_walk, do_walk_collect, walk_loop, scan, hand_over, take_response, handle_reply,
  kept, stop_now, walk_request, is_too_big, collect_result,
}
use snmpio.Client.Walk.Ends.{do_walk-some}
use snmpio.Client.Walk.Ordered.{IsOrdered, do_walk_collect-IsOrdered}

abbrev base : Oid
base = 1 ∷ 3 ∷ []

abbrev first : Varbind
first = record { name = 1 ∷ 3 ∷ 1 ∷ []; val = Value.counter32 7 }

abbrev second : Varbind
second = record { name = 1 ∷ 3 ∷ 2 ∷ []; val = Value.counter32 8 }

abbrev end_marker : Varbind
end_marker = record { name = 1 ∷ 3 ∷ 2 ∷ []; val = Value.exception ValueException.end_of_mib_view }

-- Every request is answered with all that there is.
abbrev agent : Requester ℕ
agent = record {
  do_request = λ pdu n.
      (n + 1, (none, record { varbinds = first ∷ second ∷ end_marker ∷ []; error_index = pos 0 }));
  cancelled = λ n. no_signal;
  stopping = λ n. false;
}

do_walk-some_example :
    (s' : ℕ) × (failure : Option Failure) × (do_walk agent (λ batch n. (n, true)) base (pos 10) 0
      ≡ some (s', failure))
do_walk-some_example =
    do_walk-some agent (λ batch n. (n, true)) (λ n. Unit {0}) base (pos 10) 0
      (λ pdu n i. (tt, omega arith)) (λ batch n i. tt) (omega arith) tt

collected_all : do_walk_collect agent base (pos 10) 0 ≡ some (1, (none, first ∷ second ∷ []))
unfolding do_walk_collect do_walk collect_result walk_loop scan hand_over take_response handle_reply
    kept stop_now walk_request is_too_big is_exception is_prefix_of same_until less
collected_all = refl

do_walk_collect-IsOrdered_example :
    IsOrdered base (first ∷ second ∷ []) × (none ≡ some aborted → first ∷ second ∷ [] ≡ [])
do_walk_collect-IsOrdered_example =
    do_walk_collect-IsOrdered agent base (pos 10) 0 1 none (first ∷ second ∷ []) collected_all
