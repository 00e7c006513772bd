-- ===== src/Tests/Engines.antt =====
-- A client that discovers an Engine and asks it over SNMPv3.
use snmpio.Common.{arith, ℕ, true, none, List, [], ◌∷◌, ◌≡◌, refl, Any, replicate}
use snmpio.Value.{Octets}
use snmpio.Usm.{
  Credentials, SecurityLevel, AuthProtocol, PrivProtocol, done, is_no_priv, is_no_auth, hash_of,
  password_to_key, localize_key, localized_auth_key, localized_priv_key,
}
use snmpio.Client.{Impl, no_pdu}
use snmpio.Client.Keys.{localized_key, localized_privacy_key}
use snmpio.Client.Keys.Derived.{AreDerived, cached_keys}
use snmpio.Client.Deliver.Receive.{IsSound}
use snmpio.Client.Strand.{Run, Await, no_signal, received, passed}
use snmpio.Client.Exchange.Justified.{IsReply}
use snmpio.Client.Discover.{time_sync}
use snmpio.Client.Discover.Synced.{HasSynced, time_sync-HasSynced}
use snmpio.Client.RequestV3.{do_request_v3, v3_loop}
use snmpio.Client.RequestV3.Given.{IsGivenV3}
use snmpio.Client.RequestV3.Verified.{do_request_v3-HasAnswer}
use snmpio.Client.RequestV3.Attempts.{v3_loop-enough}
use snmpio.Common.{some, false, ◌≢◌, if◌then◌else◌}
use snmpio.Common.Map.{same_octets}
use snmpio.Error.{unknown_engine_id}
use snmpio.Usm.{is_authenticated, is_encrypted}
use snmpio.Client.{agent, library, engine_at}
use snmpio.Common.Int32.{ℤ}
use snmpio.Client.Discover.{ensure_engine, join_discovery, discovery_result}
use snmpio.Client.Strand.{
  discovered, endpoint_written, finish_discovery, wait, wait_for, steps, step,
}
use snmpio.Client.Exchange.{is_cancelled}
use snmpio.Client.RequestV3.{v3_round}
use snmpio.Tests.Security.{toy}
use snmpio.Tests.Clocks.{idle, known, engine_id, engine}
use snmpio.Tests.Client.{target, v4_only, opens, idle-IsSound}

abbrev creds : Credentials
creds = record {
  user_name = b'a' ∷ [];
  level = SecurityLevel.auth_no_priv;
  auth_protocol = AuthProtocol.sha1;
  auth_password = b'p' ∷ [];
  priv_protocol = PrivProtocol.des;
  priv_password = b'q' ∷ [];
}

-- The signed Response with number 5 of the engine, at boots 4 and time 1020.
abbrev signed_answer : Octets
signed_answer =
    48 ∷ 75 ∷ 2 ∷ 1 ∷ 3 ∷ 48 ∷ 14 ∷ 2 ∷ 1 ∷ 5 ∷ 2 ∷ 3 ∷ 0 ∷ 255 ∷ 227 ∷ 4 ∷ 1 ∷ 1 ∷ 2 ∷ 1 ∷ 3 ∷ 4
    ∷ 32 ∷ 48 ∷ 30 ∷ 4 ∷ 3 ∷ 128 ∷ 0 ∷ 1 ∷ 2 ∷ 1 ∷ 4 ∷ 2 ∷ 2 ∷ 3 ∷ 252 ∷ 4 ∷ 0 ∷ 4 ∷ 12 ∷ 9 ∷ 9 ∷ 9
    ∷ 9 ∷ 9 ∷ 9 ∷ 9 ∷ 9 ∷ 9 ∷ 9 ∷ 9 ∷ 9 ∷ 4 ∷ 0 ∷ 48 ∷ 20 ∷ 4 ∷ 3 ∷ 128 ∷ 0 ∷ 1 ∷ 4 ∷ 0 ∷ 162 ∷ 11
    ∷ 2 ∷ 1 ∷ 5 ∷ 2 ∷ 1 ∷ 0 ∷ 2 ∷ 1 ∷ 0 ∷ 48 ∷ 0 ∷ []

-- The request is sent, and 20 seconds later it is answered.
abbrev script : List Await
script =
    record { failure = none; events = [] }
    ∷ record {
      failure = none;
      events = passed 20000000000 ∷ received signed_answer (omega arith) 9 ∷ [];
    }
    ∷ []

abbrev run_at : Impl → Run
run_at s = record {
  impl = s;
  now = 0;
  cancelled = no_signal;
  awaits = script;
  heard = [];
  sent = [];
}

abbrev salt : Run → ℕ
salt r = 7

known-IsSound : IsSound toy [] known
known-IsSound = record {
  table = λ id ref t. absurd (cc);
  fresh = λ ref l. refl;
  justified = λ ref p l a. absurd (cc);
  derived = λ k key e. absurd (cc);
  octets = tt;
  discovered = λ ref d e. absurd (cc);
}

do_request_v3-HasAnswer_example :
    IsSound toy
      (do_request_v3 toy v4_only opens salt target creds no_pdu (run_at known)).0.heard
      (do_request_v3 toy v4_only opens salt target creds no_pdu (run_at known)).0.impl
    × (IsReply (do_request_v3 toy v4_only opens salt target creds no_pdu (run_at known)).1.0
        → Any
            (IsGivenV3 toy target creds
              (do_request_v3 toy v4_only opens salt target creds no_pdu (run_at known)).1)
            (do_request_v3 toy v4_only opens salt target creds no_pdu (run_at known)).0.heard)
do_request_v3-HasAnswer_example =
    do_request_v3-HasAnswer toy v4_only opens salt target creds no_pdu (run_at known) known-IsSound

v3_loop-enough_example :
    v3_loop toy v4_only opens salt target creds no_pdu 5 true (run_at known)
    ≡ v3_loop toy v4_only opens salt target creds no_pdu 2 true (run_at known)
v3_loop-enough_example = v3_loop-enough toy v4_only opens salt target creds no_pdu 3 (run_at known)

cached_keys_example :
    ((localized_key toy creds engine_id idle).1 ≡ localized_auth_key toy creds engine_id)
    × ((localized_privacy_key toy creds engine_id idle).1 ≡ localized_priv_key toy creds engine_id)
    × AreDerived toy (localized_key toy creds engine_id idle).0
    × AreDerived toy (localized_privacy_key toy creds engine_id idle).0
unfolding is_no_priv
cached_keys_example = cached_keys toy creds engine_id idle refl (λ k key e. absurd (cc))

abbrev derived_key : Octets
derived_key = replicate 16 7

derived_once : localized_auth_key toy creds engine_id ≡ done derived_key
unfolding localized_auth_key password_to_key localize_key hash_of is_no_auth
derived_once = refl

time_sync-HasSynced_example :
    HasSynced toy target creds engine_id
      (time_sync toy v4_only opens salt target creds engine_id (derived_key, []) (run_at idle))
time_sync-HasSynced_example =
    time_sync-HasSynced toy target creds engine_id v4_only opens salt (derived_key, [])
      (run_at idle) derived_once idle-IsSound

-- The engine is known but not synchronised, so that the request waits for a discovery; when that has
-- ended, a Report to another request has the endpoint forgotten before the request goes on.
abbrev unsynced : Impl
unsynced = record known {
  engines =
      λ id. if same_octets id engine_id then some (record engine { time_synced = false }) else none;
}

no_status : (n : ℤ) → none ≢ some (agent n)
no_status n h = cc (h)

abbrev forgotten : Run
forgotten = record (run_at unsynced) {
  awaits =
      record { failure = none; events = discovered 9 none no_status ∷ endpoint_written 9 none ∷ [] }
      ∷ [];
}

forgotten_after_discovery :
    (do_request_v3 toy v4_only opens salt target creds no_pdu forgotten).1.0
    ≡ some (library unknown_engine_id)
unfolding do_request_v3 v3_loop v3_round ensure_engine join_discovery discovery_result
    finish_discovery wait wait_for steps step is_cancelled engine_at same_octets is_authenticated
    is_encrypted is_no_priv is_no_auth
forgotten_after_discovery = refl
