-- ===== src/Client/Strand.antt =====
-- What happens on the strand of src/Client.cpp while one operation waits: a `co_await` lets the receive
-- loop, the clock, signals, Stopping and the other operations do their work before it goes on.
pub mod Sound
pub mod Holds
pub mod Silent
use snmpio.Common.{
  All, ℕ, suc, ◌+◌, Bool, true, false, Option, none, some, List, [], ◌∷◌, ◌≢◌, if◌then◌else◌,
}
use snmpio.Common.Int32.{ℤ}
use snmpio.Common.Bytes.{IsByte}
use snmpio.Common.Map.{Map, update, emplace, number_key, octets_key}
use snmpio.Value.{Octets}
use snmpio.Usm.{Crypto, Credentials}
use snmpio.Client.{Impl, Pending, EngineState, Discovery, Endpoint, Failure, agent, int_key}
use snmpio.Client.Ids.{next_id}
use snmpio.Client.Keys.{localized_key, localized_privacy_key}
use snmpio.Client.Deliver.{receive}

-- What `cancellation_state::cancelled()` holds: nothing, a soft type, or the terminal one.
pub data Cancellation : Type 0 where
  no_signal soft terminal : Cancellation

unfoldable pub signal : Cancellation → Cancellation → Cancellation
signal new terminal = terminal
signal no_signal old = old
signal new old = new

-- One piece of other work. `received` is a datagram, whose octets are below 256. `started` is another operation that enters its request, `ended` one that
-- removes it, `numbered` a call of `nextId`, `engine_written` and
-- `endpoint_written` are writes to the caches of engines, `derived` is a call of `localizedPrivacyKey` or
-- `localizedKey`, and `discovered` the end of `runDiscovery`, which finds no error-status of an Agent.
pub data Event : Type 0 where
  received : (datagram : Octets) → All IsByte datagram → ℕ → Event
  passed : ℕ → Event
  stopped : Event
  signalled : Cancellation → Event
  started : Pending → Event
  ended : ℤ → Event
  numbered : Event
  engine_written : Octets → EngineState → Event
  endpoint_written : ℕ → Option Octets → Event
  derived : Credentials → Octets → Bool → Event
  discovered : ℕ → (ec : Option Failure) → ((n : ℤ) → ec ≢ some (agent n)) → Event

-- One wait: the code that the network library ends it with, and the work that was done meanwhile.
pub record Await : Type 0 where
  pub failure : Option ℕ
  pub events : List Event

-- The client, the clock, the signals that the operation has seen, and the waits that lie ahead of it;
-- `heard` and `sent` record the datagrams that came in and those that the operation sent.
pub record Run : Type 0 where
  pub impl : Impl
  pub now : ℕ
  pub cancelled : Cancellation
  pub awaits : List Await
  pub heard : List (Octets × Endpoint)
  pub sent : List (Octets × Endpoint)

-- `std::make_shared<Pending>`
unfoldable pub make_shared : Pending → Impl → Impl × ℕ
make_shared p s = (
  record s { requests = update s.next_ref (some p) s.requests; next_ref = suc s.next_ref },
  s.next_ref,
)

-- `m_pending.emplace(key, pending)` and `m_pending.erase(key)`
unfoldable pub emplace_pending : ℤ → ℕ → Impl → Impl
emplace_pending id ref s = record s { pending = emplace id ref s.pending }

unfoldable pub erase_pending : ℤ → Impl → Impl
erase_pending id s = record s { pending = update id none s.pending }

unfoldable pub start : Pending → Impl → Impl
start p s =
    let (s1, ref) = make_shared (record p { answered = false }) s in
    emplace_pending p.request_id ref s1

-- The end of `runDiscovery`: what it found, and its removal from the map.
unfoldable pub finish_discovery : Endpoint → Option Failure → Impl → Impl
finish_discovery at ec s = elim (s.discovering at) [
  | none ↦ s
  | some ref ↦ record s {
    discoveries = update ref (some (record { ec = ec; finished = true })) s.discoveries;
    discovering = update at none s.discovering;
  }
]

module _ (crypto : Crypto) where
  unfoldable pub step : Event → Run → Run
  step (received datagram octets from) r = record r {
    impl = receive crypto r.now datagram from r.impl;
    heard = (datagram, from) ∷ r.heard;
  }
  step (passed n) r = record r { now = r.now + n }
  step stopped r = record r { impl = record r.impl { stopping = true } }
  step (signalled c) r = record r { cancelled = signal c r.cancelled }
  step (started p) r = record r { impl = start p r.impl }
  step (ended id) r = record r { impl = erase_pending id r.impl }
  step numbered r = record r { impl = (next_id r.impl).0 }
  step (engine_written id e) r = record r {
    impl = record r.impl { engines = update id (some e) r.impl.engines };
  }
  step (endpoint_written at id) r = record r {
    impl = record r.impl { engine_at = update at id r.impl.engine_at };
  }
  step (derived creds engine_id private) r = record r {
    impl =
        if private
        then (localized_privacy_key crypto creds engine_id r.impl).0
        else (localized_key crypto creds engine_id r.impl).0;
  }
  step (discovered at ec own) r = record r { impl = finish_discovery at ec r.impl }

  unfoldable pub steps : List Event → Run → Run
  steps [] r = r
  steps (e ∷ es) r = steps es (step e r)

  -- `co_await`: with no wait left in the script, nothing happens.
  unfoldable pub wait_for : List Await → Run → Run × Option ℕ
  wait_for [] r = (r, none)
  wait_for (a ∷ more) r = (steps a.events (record r { awaits = more }), a.failure)

  unfoldable pub wait : Run → Run × Option ℕ
  wait r = wait_for r.awaits r
