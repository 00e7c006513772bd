-- ===== src/Client/Clock/Window.antt =====
-- The Time Window of src/Client.cpp: which messages are timely once a pair was observed.
use snmpio.Common.{
  ℕ, ◌+◌, ◌<◌, true, false, some, List, [], ◌∷◌, leb, ◌≡◌, ◌≢◌, ◌⊎◌, inl, inr, ap, ◌∙◌, arith,
}
use snmpio.Common.Int32.{ℤ, pos_part, neg_part, less_int, same_int_iff}
use snmpio.Common.Map.{Map, octets_key, same_refl}
use snmpio.Value.{Octets}
use snmpio.V3Message.{UsmParameters}
use snmpio.Client.{Impl, EngineState, Endpoint, engine_at}
use snmpio.Client.Clock.{
  boots_ceiling, seconds_since, time_window_seconds, observed, observe_engine_time, timely,
  timely_for,
}
use snmpio.Client.Clock.Newer.{
  NotOlder, HasReached, engine_at-parts, engine_at-some, observe-index,
  observe_engine_time-HasReached,
}

-- Messages that were accepted one after the other, each with the clock's reading and its source.
abbrev pub Observation : Type 0
Observation = ℕ × Endpoint × UsmParameters

unfoldable pub observe_all : List Observation → Impl → Impl
observe_all [] s = s
observe_all ((now, from, security) ∷ more) s =
    observe_all more (observe_engine_time now from security s)

observe_all-HasReached :
    (more : List Observation) (from : Endpoint) (b t : ℤ) (s : Impl)
    → HasReached from b t s
    → HasReached from b t (observe_all more s)
unfolding observe_all
observe_all-HasReached [] from b t s h = h
observe_all-HasReached ((now, at, security) ∷ more) from b t s h =
    observe_all-HasReached more from b t (observe_engine_time now at security s)
      (observe_engine_time-HasReached now at security from b t s h)

-- A pair that is older than another by a boot, or by more than the Window within one boot.
abbrev pub IsStale : ℤ → ℤ → UsmParameters → Type 0
IsStale b t old =
    (less_int old.boots b ≡ true)
    ⊎ ((old.boots ≡ b)
        × (pos_part old.time + neg_part t + time_window_seconds < pos_part t + neg_part old.time))

stale-untimely :
    (now : ℕ) (old : UsmParameters) (b t : ℤ) (e : EngineState)
    → e.time_synced ≡ true
    → NotOlder b t e.boots e.time
    → IsStale b t old
    → timely_for now old e ≡ false
unfolding timely_for
stale-untimely now old b t e sy (h, k) (inl o) = ground (arith, same_int_iff old.boots e.boots)
stale-untimely now old b t e sy (h, k) (inr (p, q)) = ground (arith, same_int_iff old.boots e.boots)

-- Once the trusted clock of the engine at an endpoint has reached a pair of boots and time, and
-- whatever pairs are observed afterwards from any endpoint, a message from that endpoint whose
-- boots are fewer, or whose boots are the same and whose time is more than 150 seconds behind, is
-- not timely.
pub timely-stale :
    (now : ℕ) (from : Endpoint) (old : UsmParameters) (more : List Observation) (b t : ℤ) (s : Impl)
    → HasReached from b t s
    → IsStale b t old
    → timely now from old (observe_all more s) ≡ false
unfolding timely
timely-stale now from old more b t s h st =
    let r = observe_all-HasReached more from b t s h in
    rw (r.known, timely) (stale-untimely now old b t r.engine r.trusted r.reached st)

window :
    (now later : ℕ) (security : UsmParameters) (e : EngineState)
    → security.boots ≢ boots_ceiling
    → NotOlder e.boots e.time security.boots security.time
    → timely_for later security (observed now security e)
      ≡ leb (seconds_since now later) time_window_seconds
unfolding timely_for observed
window now later security e nc fresh = ground (
  arith,
  same_int_iff security.boots boots_ceiling,
  same_int_iff security.boots e.boots,
  same_int_iff security.boots security.boots,
)

entry :
    (now : ℕ) (from : Endpoint) (security : UsmParameters) (id : Octets) (e : EngineState)
    (s : Impl)
    → engine_at from s ≡ some (id, e)
    → (observe_engine_time now from security s).engines id ≡ some (observed now security e)
unfolding observe_engine_time
entry now from security id e s h = ground (arith, h, same_refl id)

-- A pair that observeEngineTime takes, because its boots are not the ceiling and it is not older
-- than the pair held, stays timely for 150 whole seconds of the local clock and no longer.
pub timely-observe_engine_time :
    (now later : ℕ) (from : Endpoint) (security : UsmParameters) (id : Octets) (e : EngineState)
    (s : Impl)
    → engine_at from s ≡ some (id, e)
    → security.boots ≢ boots_ceiling
    → NotOlder e.boots e.time security.boots security.time
    → timely later from security (observe_engine_time now from security s)
      ≡ leb (seconds_since now later) time_window_seconds
unfolding timely
timely-observe_engine_time now later from security id e s h nc fresh =
    rw
      (
        engine_at-some from (observe_engine_time now from security s) id (observed now security e)
            (ap (λ (m : Map Endpoint Octets). m from) (observe-index now from security s)
              ∙ (engine_at-parts from s id e h).0)
            (entry now from security id e s h),
        timely,
      )
      (window now later security e nc fresh)
