-- ===== src/Client/Discover.antt =====
-- `ensureEngine`, `runDiscovery` and `discoverEngine` of src/Client.cpp: Engine Discovery in its two
-- phases. A discovery is an operation of its own, with a script of its own; a request that needs one
-- waits for it, and sees its writes as other work on the strand.
pub mod Keyed
pub mod Synced
pub mod Found
use snmpio.Common.{
  ℕ, suc, Bool, true, false, not, ◌&&◌, ◌||◌, Option, none, some, [], if◌then◌else◌, length, ◌==◌,
}
use snmpio.Common.Int32.{ℤ, pos, same_int}
use snmpio.Common.Map.{Map, update, octets_key, number_key}
use snmpio.Error.{Errc, unknown_engine_id, not_in_time_window, client_stopped}
use snmpio.Value.{Octets}
use snmpio.Usm.{
  Crypto, Credentials, SecurityLevel, AuthProtocol, PrivProtocol, no_auth_no_priv, no_auth, no_priv,
  is_authenticated, is_encrypted, Result, done, fault,
}
use snmpio.V3Message.{V3Header, UsmParameters, ScopedPdu, encode_v3_message, security_model_usm}
use snmpio.Client.{
  Impl, Pending, EngineState, Discovery, Endpoint, Failure, library, aborted, Target, no_security,
  new_pending, engine_at,
}
use snmpio.Client.Ids.{next_id}
use snmpio.Client.Report.{usm_stats_counter, report_error, discovery_scoped_pdu}
use snmpio.Client.Clock.{boots_ceiling}
use snmpio.Client.Keys.{localized_key, localized_privacy_key}
use snmpio.Client.Strand.{Run, no_signal, wait, make_shared, finish_discovery}
use snmpio.Client.Exchange.{transact, is_cancelled}

-- `defaultMaxMessageSize`
abbrev pub default_max_message_size : ℤ
default_max_message_size = pos 65507

abbrev pub new_header : ℤ → SecurityLevel → V3Header
new_header id level = record {
  msg_id = id;
  max_size = default_max_message_size;
  level = level;
  reportable = true;
  security_model = security_model_usm;
}

-- The request as it stands, through the pointer that its operation holds.
unfoldable pub request_at : ℕ → Impl → Pending
request_at ref s = elim (s.requests ref) [ none ↦ new_pending | some p ↦ p ]

-- An entry of `m_engines` that `operator[]` makes.
abbrev pub new_engine : EngineState
new_engine = record { engine_id = []; boots = pos 0; time = pos 0; at = 0; time_synced = false }

abbrev pub entry_or_new : Option EngineState → EngineState
entry_or_new none = new_engine
entry_or_new (some e) = e

-- What the identity phase makes of an entry: an unsigned pair is recorded unless there is a signed one.
unfoldable pub identified : ℕ → Octets → UsmParameters → EngineState → EngineState
identified now engine_id security e =
    let named : EngineState = record e { engine_id = engine_id } in
    if not e.time_synced
    then record named { boots = security.boots; time = security.time; at = now }
    else named

unfoldable pub identify_engine : ℕ → Endpoint → UsmParameters → Impl → Impl
identify_engine now at security s =
    let id = security.engine_id in
    record s {
      engine_at = update at (some id) s.engine_at;
      engines =
          update id (some (identified now id security (entry_or_new (s.engines id)))) s.engines;
    }

-- The baseline that a signed reply sets.
unfoldable pub set_baseline : ℕ → Octets → UsmParameters → Impl → Impl
set_baseline now id security s = record s {
  engines =
      update id
        (some (record (entry_or_new (s.engines id)) {
          boots = security.boots;
          time = security.time;
          at = now;
          time_synced = true;
        }))
        s.engines;
}

-- What the end of the time-sync phase means.
unfoldable pub synchronised : ℕ → Octets → Pending → Impl → Impl × Option Errc
synchronised now id sync s =
    if not sync.reply_authenticated
    then (s, some (report_error (usm_stats_counter sync.response)))
    else if same_int sync.security.boots boots_ceiling
    then (s, some not_in_time_window)
    else (set_baseline now id sync.security s, none)

abbrev pub failure_of : Option Errc → Option Failure
failure_of none = none
failure_of (some e) = some (library e)

abbrev pub is_empty : Octets → Bool
is_empty o = length o == 0

abbrev pub sync_pending : Target → Credentials → Octets → Octets → Octets → ℤ → Pending
sync_pending target creds engine_id key priv_key id = record new_pending {
  from = target.endpoint;
  v3 = true;
  auth_required = true;
  auth_protocol = creds.auth_protocol;
  priv_protocol = creds.priv_protocol;
  auth_key = key;
  priv_key = priv_key;
  engine_id = engine_id;
  request_id = id;
  time_sync_phase = true;
}

-- Behind the exchange of the time-sync phase.
unfoldable pub after_sync : Octets → ℕ → Run × Option Failure → Run × Option Failure
after_sync engine_id ref (r, some e) = (r, some e)
after_sync engine_id ref (r, none) =
    let (s, e) = synchronised r.now engine_id (request_at ref r.impl) r.impl in
    (record r { impl = s }, failure_of e)

-- The discovery in flight at an endpoint, which is begun if there is none.
unfoldable pub join_discovery : Endpoint → Impl → Impl × ℕ
join_discovery at s = elim (s.discovering at) [
  | some ref ↦ (s, ref)
  | none ↦ (
    record s {
      discoveries =
          update s.next_discovery (some (record { ec = none; finished = false })) s.discoveries;
      discovering = update at (some s.next_discovery) s.discovering;
      next_discovery = suc s.next_discovery;
    },
    s.next_discovery,
  )
]

abbrev pub is_ready : Credentials → Option (Octets × EngineState) → Bool
is_ready creds none = false
is_ready creds (some (id, e)) = not (is_authenticated creds.level) || e.time_synced

-- What a waiter makes of the discovery that it waited for.
unfoldable pub discovery_result : ℕ → Run → Option Failure
discovery_result ref r =
    if r.impl.stopping then some (library client_stopped) else elim (r.impl.discoveries ref) [
      | none ↦ some aborted
      | some d ↦ if is_cancelled r.cancelled || not d.finished then some aborted else d.ec
    ]

module _ (crypto : Crypto) where
  -- The privacy key behind the authentication key.
  unfoldable pub with_privacy :
      Credentials → Octets → Octets → Impl → Impl × Result (Octets × Octets)
  with_privacy creds engine_id key s =
      if is_encrypted creds.level
      then (let (s2, priv) = localized_privacy_key crypto creds engine_id s in
          elim priv [ fault e ↦ (s2, fault e) | done pk ↦ (s2, done (key, pk)) ])
      else (s, done (key, []))

  -- The keys of an exchange: none where the level needs none.
  unfoldable pub keys_for : Credentials → Octets → Impl → Impl × Result (Octets × Octets)
  keys_for creds engine_id s =
      if is_authenticated creds.level
      then (let (s1, auth) = localized_key crypto creds engine_id s in
          elim auth [ fault e ↦ (s1, fault e) | done key ↦ with_privacy creds engine_id key s1 ])
      else with_privacy creds engine_id [] s

  unfoldable pub ensure_engine : Target → Credentials → Run → Run × Option Failure
  ensure_engine target creds r =
      if is_ready creds (engine_at target.endpoint r.impl)
      then (r, none)
      else (let (s, ref) = join_discovery target.endpoint r.impl in
          let r1 = (wait crypto (record r { impl = s })).0 in (r1, discovery_result ref r1))

-- `salt` is what `nextSalt` returns at a point of the run.
module _ (crypto : Crypto) (is_v6 : Endpoint → Bool) (open_socket : Bool → ℕ → Option ℕ)
    (salt : Run → ℕ) where
  unfoldable pub time_sync :
      Target → Credentials → Octets → Octets × Octets → Run → Run × Option Failure
  time_sync target creds engine_id (key, priv_key) r =
      let (s, id) = next_id r.impl in
      elim (encode_v3_message crypto (salt r) (new_header id creds.level)
        (record no_security { engine_id = engine_id; user_name = creds.user_name })
        (discovery_scoped_pdu id engine_id) creds.auth_protocol key creds.priv_protocol priv_key) [
          | fault e ↦ (record r { impl = s }, some (library e))
          | done datagram ↦
              let (s1, ref) = make_shared (sync_pending target creds engine_id key priv_key id) s in
              after_sync engine_id ref
                (transact crypto is_v6 open_socket target datagram id ref (record r { impl = s1 }))
        ]

  -- Behind the exchange of the identity phase.
  unfoldable pub after_identify :
      Target → Credentials → ℕ → Run × Option Failure → Run × Option Failure
  after_identify target creds ref (r, some e) = (r, some e)
  after_identify target creds ref (r, none) =
      let security : UsmParameters = (request_at ref r.impl).security in
      if is_empty security.engine_id
      then (r, some (library unknown_engine_id))
      else (let s = identify_engine r.now target.endpoint security r.impl in
          let r1 : Run = record r { impl = s } in
          if not (is_authenticated creds.level)
            || (entry_or_new (s.engines security.engine_id)).time_synced
          then (r1, none)
          else (let (s2, keys) = keys_for crypto creds security.engine_id s in
              elim keys [
                | fault e ↦ (record r { impl = s2 }, some (library e))
                | done ks ↦ time_sync target creds security.engine_id ks (record r { impl = s2 })
              ]))

  unfoldable pub discover_engine : Target → Credentials → Run → Run × Option Failure
  discover_engine target creds r =
      let (s, id) = next_id r.impl in
      elim (encode_v3_message crypto (salt r) (new_header id no_auth_no_priv) no_security
        (discovery_scoped_pdu id []) no_auth [] no_priv []) [
          | fault e ↦ (record r { impl = s }, some (library e))
          | done datagram ↦
              let (s1, ref) =
                make_shared
                  (record new_pending { from = target.endpoint; v3 = true; request_id = id }) s in
              after_identify target creds ref
                (transact crypto is_v6 open_socket target datagram id ref (record r { impl = s1 }))
        ]

  -- What it throws is not modelled.
  unfoldable pub run_discovery : Target → Credentials → Run → Run
  run_discovery target creds r =
      let (r1, ec) = discover_engine target creds (record r { cancelled = no_signal }) in
      record r1 { impl = finish_discovery target.endpoint ec r1.impl }
