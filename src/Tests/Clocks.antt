-- ===== src/Tests/Clocks.antt =====
-- The clocks of two engines, at concrete readings.
use snmpio.Common.{
  true, false, none, some, [], ◌∷◌, leb, ◌==◌, ◌≡◌, ◌≢◌, inl, refl, arith, if◌then◌else◌,
}
use snmpio.Common.Int32.{pos}
use snmpio.Common.Map.{same_octets}
use snmpio.Value.{Octets}
use snmpio.V3Message.{UsmParameters}
use snmpio.Client.{Impl, Pending, EngineState, engine_at, new_pending, no_security}
use snmpio.Client.Ids.{nth_id, nth_id_unique}
use snmpio.Client.Clock.{
  observe_engine_time, timely, handle_report, seconds_since, time_window_seconds,
}
use snmpio.Client.Clock.Newer.{HasReached, IsAdvanced, observe_engine_time-IsAdvanced}
use snmpio.Client.Clock.Window.{observe_all, timely-stale, timely-observe_engine_time}
use snmpio.Client.Clock.Reports.{IsReported, handle_report-IsReported}

abbrev pub idle : Impl
idle = record {
  stopping = false;
  has_v4 = false;
  has_v6 = false;
  pending = λ id. none;
  requests = λ ref. none;
  next_ref = 0;
  engines = λ id. none;
  engine_at = λ at. none;
  discovering = λ at. none;
  discoveries = λ ref. none;
  next_discovery = 0;
  keys = λ k. none;
  next_id = pos 5;
}

nth_id_unique_example : nth_id 3 idle ≢ nth_id 7 idle
nth_id_unique_example =
    nth_id_unique 3 7 idle (5, refl, omega arith, omega arith) (omega arith) (omega arith)

abbrev pub engine_id : Octets
engine_id = 128 ∷ 0 ∷ 1 ∷ []

-- Boots 4, and 1000 seconds in at the clock's start.
abbrev pub engine : EngineState
engine = record {
  engine_id = engine_id;
  boots = pos 4;
  time = pos 1000;
  at = 0;
  time_synced = true;
}

-- Endpoint 9 is that engine.
abbrev pub known : Impl
known = record idle {
  engines = λ id. if same_octets id engine_id then some engine else none;
  engine_at = λ at. if at == 9 then some engine_id else none;
}

known_engine : engine_at 9 known ≡ some (engine_id, engine)
unfolding engine_at same_octets
known_engine = refl

-- 20 seconds later the engine says that it is 25 seconds on.
abbrev pub newer : UsmParameters
newer = record no_security { engine_id = engine_id; boots = pos 4; time = pos 1025 }

observe_engine_time-IsAdvanced_example :
    (e' : EngineState) × ((observe_engine_time 20000000000 9 newer known).engines engine_id
      ≡ some e')
    × IsAdvanced 20000000000 newer engine e'
unfolding same_octets
observe_engine_time-IsAdvanced_example =
    observe_engine_time-IsAdvanced 20000000000 9 newer known engine_id engine refl

timely-observe_engine_time_example :
    timely 200000000000 9 newer (observe_engine_time 20000000000 9 newer known)
    ≡ leb (seconds_since 20000000000 200000000000) time_window_seconds
timely-observe_engine_time_example =
    timely-observe_engine_time 20000000000 200000000000 9 newer engine_id engine known known_engine
      (λ e. cc) (omega arith, λ e. omega arith)

reached : HasReached 9 (pos 4) (pos 1000) known
reached = record {
  id = engine_id;
  engine = engine;
  known = known_engine;
  trusted = refl;
  reached = (omega arith, λ e. omega arith);
}

-- A message of the boot before is refused, whatever came in since.
abbrev before : UsmParameters
before = record no_security { engine_id = engine_id; boots = pos 3; time = pos 5000 }

timely-stale_example :
    timely 30000000000 9 before (observe_all ((20000000000, 9, newer) ∷ []) known) ≡ false
timely-stale_example =
    timely-stale 30000000000 9 before ((20000000000, 9, newer) ∷ []) (pos 4) (pos 1000) known
      reached (inl refl)

abbrev reported : Pending
reported = record new_pending { security = newer; reply_authenticated = true }

handle_report-IsReported_example :
    IsReported 20000000000 9 reported true known
      (handle_report 20000000000 9 reported true known).0
      (handle_report 20000000000 9 reported true known).1
handle_report-IsReported_example = handle_report-IsReported 20000000000 9 reported known true
