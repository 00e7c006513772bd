-- ===== src/Client.antt =====
-- include/snmpio/Client.hpp, include/snmpio/Target.hpp and the state of src/Client.cpp: what a client
-- knows. The strand runs one piece of work at a time, so its state is a value that each piece takes and
-- returns; a `std::shared_ptr` to an outstanding request is a reference into `requests`.
pub mod Ids
pub mod Report
pub mod Keys
pub mod Clock
pub mod Deliver
pub mod Strand
pub mod Exchange
pub mod Discover
pub mod RequestV3
pub mod Walk
use snmpio.Common.{
  ℕ, zero, suc, ◌+◌, Bool, true, false, not, ◌&&◌, Option, none, some, List, [], ◌∷◌, ◌==◌,
  if◌then◌else◌,
}
use snmpio.Common.Int32.{ℤ, pos, negsuc, same_int, same_int_iff}
use snmpio.Common.Map.{Key, Map, update, number_key}
use snmpio.Error.{Errc}
use snmpio.Oid.{Oid}
use snmpio.Value.{Octets, Value, Varbind}
use snmpio.Pdu.{Pdu, PduType, set_bulk_params}
use snmpio.Usm.{AuthProtocol, PrivProtocol, SecurityLevel, no_auth, no_priv}
use snmpio.V3Message.{UsmParameters, ScopedPdu, no_scoped}

instance abbrev pub int_key : Key ℤ
int_key = record { same = same_int; same_iff = same_int_iff }

-- A UDP address with its port, which the code only compares.
abbrev pub Endpoint : Type 0
Endpoint = ℕ

-- What a completion's `net::ErrorCode` holds, other than success: a code of the library, an Agent's
-- error-status, `operation_aborted`, or a code of the sockets.
pub data Failure : Type 0 where
  library : Errc → Failure
  agent : ℤ → Failure
  aborted : Failure
  socket : ℕ → Failure

pub record Target : Type 0 where
  pub endpoint : Endpoint
  pub timeout : ℕ
  pub retries : ℤ

pub record Response : Type 0 where
  pub varbinds : List Varbind
  pub error_index : ℤ

abbrev pub no_response : Response
no_response = record { varbinds = []; error_index = pos 0 }

abbrev pub no_pdu : Pdu
no_pdu = no_scoped.pdu

abbrev pub no_security : UsmParameters
no_security = record {
  engine_id = [];
  boots = pos 0;
  time = pos 0;
  user_name = [];
  auth_params = [];
  priv_params = [];
}

-- One outstanding request, but for its timer.
pub record Pending : Type 0 where
  pub from : Endpoint
  pub community : Octets
  pub v3 : Bool
  pub auth_required : Bool
  pub auth_protocol : AuthProtocol
  pub priv_protocol : PrivProtocol
  pub auth_key : Octets
  pub priv_key : Octets
  pub engine_id : Octets
  pub request_id : ℤ
  pub response : Pdu
  pub security : UsmParameters
  pub answered : Bool
  pub reply_authenticated : Bool
  pub time_sync_phase : Bool
  pub drop_reason : Option Errc

abbrev pub new_pending : Pending
new_pending = record {
  from = 0;
  community = [];
  v3 = false;
  auth_required = false;
  auth_protocol = no_auth;
  priv_protocol = no_priv;
  auth_key = [];
  priv_key = [];
  engine_id = [];
  request_id = pos 0;
  response = no_pdu;
  security = no_security;
  answered = false;
  reply_authenticated = false;
  time_sync_phase = false;
  drop_reason = none;
}

-- `at` is a reading of the steady clock, in nanoseconds.
pub record EngineState : Type 0 where
  pub engine_id : Octets
  pub boots : ℤ
  pub time : ℤ
  pub at : ℕ
  pub time_synced : Bool

-- A discovery in flight, but for the timer that its waiters park on.
pub record Discovery : Type 0 where
  pub ec : Option Failure
  pub finished : Bool

-- What a derived key is kept under. The authentication key's row has `no_priv`.
pub record CacheKey : Type 0 where
  pub engine_id : Octets
  pub auth : AuthProtocol
  pub secret : Octets
  pub priv : PrivProtocol

pub record Impl : Type 0 where
  pub stopping : Bool
  pub has_v4 : Bool
  pub has_v6 : Bool
  pub pending : Map ℤ ℕ
  pub requests : Map ℕ Pending
  pub next_ref : ℕ
  pub engines : Map Octets EngineState
  pub engine_at : Map Endpoint Octets
  pub discovering : Map Endpoint ℕ
  pub discoveries : Map ℕ Discovery
  pub next_discovery : ℕ
  pub keys : Map CacheKey Octets
  pub next_id : ℤ

-- The outstanding request with this id.
unfoldable pub find_pending : ℤ → Impl → Option ℕ
find_pending id s = s.pending id

-- Work on the request behind a reference.
unfoldable pub modify : ℕ → (Pending → Pending) → Impl → Impl
modify ref f s = elim (s.requests ref) [
  | none ↦ s
  | some p ↦ record s { requests = update ref (some (f p)) s.requests }
]

-- `Client::toVarbinds`, `makePdu` and `makeBulkPdu`.
unfoldable pub to_varbinds : List Oid → List Varbind
to_varbinds [] = []
to_varbinds (o ∷ oids) = record { name = o; val = Value.null } ∷ to_varbinds oids

unfoldable pub make_pdu : PduType → List Varbind → Pdu
make_pdu type vbs = record no_pdu { type = type; varbinds = vbs }

unfoldable pub make_bulk_pdu : List Varbind → ℤ → ℤ → Pdu
unfolding make_pdu set_bulk_params
make_bulk_pdu vbs non_repeaters max_repetitions =
    set_bulk_params non_repeaters max_repetitions (make_pdu PduType.get_bulk vbs)

unfoldable pub to_result : Pdu → Option Failure × Response
to_result response =
    let resp : Response = record {
      varbinds = response.varbinds;
      error_index = response.error_index;
    } in
    if not (same_int response.error_status (pos 0))
    then (some (agent response.error_status), resp)
    else (none, resp)

-- The engine believed to answer at this endpoint, with the key of its entry.
unfoldable pub engine_at : Endpoint → Impl → Option (Octets × EngineState)
engine_at endpoint s = elim (s.engine_at endpoint) [
  | none ↦ none
  | some id ↦ elim (s.engines id) [ none ↦ none | some e ↦ some (id, e) ]
]
