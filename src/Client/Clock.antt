-- ===== src/Client/Clock.antt =====
-- The clocks of the engines in src/Client.cpp: `timely`, `observeEngineTime` and `handleReport`.
pub mod Window
pub mod Newer
pub mod Reports
use snmpio.Common.{
  ℕ, ◌+◌, ◌-◌, ◌*◌, ◌/◌, ◌^◌, Bool, true, false, not, ◌&&◌, ◌||◌, Option, none, some, leb, ◌==◌,
  if◌then◌else◌,
}
use snmpio.Common.Int32.{ℤ, pos, pos_part, neg_part, less_int, same_int}
use snmpio.Common.Map.{Map, update, octets_key, number_key}
use snmpio.Error.{Errc}
use snmpio.Value.{Octets}
use snmpio.V3Message.{UsmParameters}
use snmpio.Client.{Impl, Pending, EngineState, Endpoint, engine_at}
use snmpio.Client.Report.{
  usm_stats_counter, not_in_time_windows, unknown_engine_ids, is_counter, report_error,
}

abbrev pub time_window_seconds : ℕ
time_window_seconds = 150

abbrev pub boots_ceiling : ℤ
boots_ceiling = pos (2 ^ 31 - 1)

-- Whole seconds between two readings of the steady clock, which never goes back.
abbrev pub seconds_since : ℕ → ℕ → ℕ
seconds_since at now = (now - at) / 1000000000

-- `time >= engine.time + elapsed - 150`, in 64 bits, which none of these comes near.
abbrev pub not_behind : ℤ → ℕ → ℤ → Bool
not_behind time elapsed engine_time =
    leb (pos_part engine_time + elapsed + neg_part time)
      (pos_part time + neg_part engine_time + time_window_seconds)

unfoldable pub timely_for : ℕ → UsmParameters → EngineState → Bool
timely_for now security engine =
    if not engine.time_synced
    then true
    else if same_int security.boots boots_ceiling || same_int engine.boots boots_ceiling
    then false
    else if not (same_int security.boots engine.boots)
    then less_int engine.boots security.boots
    else not_behind security.time (seconds_since engine.at now) engine.time

unfoldable pub timely : ℕ → Endpoint → UsmParameters → Impl → Bool
timely now from security s = elim (engine_at from s) [
  | none ↦ true
  | some e ↦ timely_for now security e.1
]

-- What an engine's entry becomes.
unfoldable pub observed : ℕ → UsmParameters → EngineState → EngineState
observed now security engine =
    if same_int security.boots boots_ceiling
    then engine
    else if less_int security.boots engine.boots
    then engine
    else if same_int security.boots engine.boots && less_int security.time engine.time
    then engine
    else record engine {
      boots = security.boots;
      time = security.time;
      at = now;
      time_synced = true;
    }

unfoldable pub observe_engine_time : ℕ → Endpoint → UsmParameters → Impl → Impl
observe_engine_time now from security s = elim (engine_at from s) [
  | none ↦ s
  | some e ↦ record s { engines = update e.0 (some (observed now security e.1)) s.engines }
]

abbrev pub forget_endpoint : Endpoint → Impl → Impl
forget_endpoint from s = record s { engine_at = update from none s.engine_at }

-- A signed Report with older boots than ours has us synchronise again.
unfoldable pub resynchronise :
    ℕ → Endpoint → UsmParameters → Option (Octets × EngineState) → Impl → Impl
resynchronise now from security none s = observe_engine_time now from security s
resynchronise now from security (some (id, engine)) s =
    if engine.time_synced && less_int security.boots engine.boots
    then record s { engines = update id (some (record engine { time_synced = false })) s.engines }
    else observe_engine_time now from security s

-- The state, and the error to fail with, or nothing to ask again.
unfoldable pub handle_report : ℕ → Endpoint → Pending → Bool → Impl → Impl × Option Errc
handle_report now from p may_retry s =
    let counter = usm_stats_counter p.response in
    if not may_retry
    then (s, some (report_error counter))
    else if not (is_counter not_in_time_windows counter || is_counter unknown_engine_ids counter)
    then (s, some (report_error counter))
    else if not p.reply_authenticated || is_counter unknown_engine_ids counter
    then (forget_endpoint from s, none)
    else (resynchronise now from p.security (engine_at from s) s, none)
