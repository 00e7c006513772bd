-- ===== src/Client/RequestV3.antt =====
-- `doRequestV3` and `doRequest` of src/Client.cpp: an SNMPv3 request, with one further attempt.
pub mod Given
pub mod Replied
pub mod Verified
pub mod Attempts
use snmpio.Common.{
  ℕ, zero, suc, ◌+◌, ◌-◌, [], Bool, true, false, not, ◌&&◌, Option, none, some, ltb, leb,
  if◌then◌else◌,
}
use snmpio.Common.Int32.{ℤ, pos, negsuc, pos_part}
use snmpio.Error.{
  Errc, client_stopped, unsupported_priv_protocol, unsupported_auth_protocol, unknown_engine_id,
  unexpected_report,
}
use snmpio.Value.{Octets}
use snmpio.Pdu.{Pdu}
use snmpio.Usm.{
  Crypto, Credentials, is_authenticated, is_encrypted, is_no_auth, is_no_priv, done, fault,
}
use snmpio.V3Message.{UsmParameters, ScopedPdu, encode_v3_message}
use snmpio.Client.{
  Impl, Pending, EngineState, Endpoint, Failure, library, Target, Response, no_response,
  no_security, new_pending, engine_at, to_result,
}
use snmpio.Client.Ids.{next_id, int32_max}
use snmpio.Client.Report.{is_report}
use snmpio.Client.Clock.{seconds_since, handle_report, observe_engine_time}
use snmpio.Client.Strand.{Run, no_signal, make_shared}
use snmpio.Client.Exchange.{transact, do_request_v2c}
use snmpio.Client.Discover.{new_header, request_at, keys_for, ensure_engine}

-- What `doRequest` and the operations above it complete with.
abbrev pub Completion : Type 0
Completion = Run × (Option Failure × Response)

-- `time + elapsed`, in 64 bits.
unfoldable pub add_seconds : ℤ → ℕ → ℤ
add_seconds (pos n) elapsed = pos (n + elapsed)
add_seconds (negsuc n) elapsed =
    if leb elapsed n then negsuc (n - elapsed) else pos (elapsed - n - 1)

-- The engine's time now, up to the ceiling of the field.
unfoldable pub projected_time : ℕ → EngineState → ℤ
projected_time now e =
    let t = add_seconds e.time (seconds_since e.at now) in
    if ltb int32_max (pos_part t) then pos int32_max else t

abbrev pub asked_v3 : Target → Credentials → Octets → Octets → Octets → ℤ → Pending
asked_v3 target creds engine_id key priv_key id = record new_pending {
  from = target.endpoint;
  v3 = true;
  auth_required = is_authenticated creds.level;
  auth_protocol = creds.auth_protocol;
  priv_protocol = creds.priv_protocol;
  auth_key = key;
  priv_key = priv_key;
  engine_id = engine_id;
  request_id = id;
}

-- What a Report means for the request: an error, or the next attempt.
unfoldable pub reported : (Run → Completion) → Run → Impl → Option Errc → Completion
reported again r s none = again (record r { impl = s })
reported again r s (some e) = (record r { impl = s }, (some (library e), no_response))

module _ (crypto : Crypto) (is_v6 : Endpoint → Bool) (open_socket : Bool → ℕ → Option ℕ)
    (salt : Run → ℕ) (target : Target) (creds : Credentials) (pdu : Pdu) where
  -- The message of one attempt.
  unfoldable pub v3_usm : Run → EngineState → UsmParameters
  v3_usm r e = record no_security {
    engine_id = e.engine_id;
    boots = e.boots;
    time = projected_time r.now e;
    user_name = creds.user_name;
  }

  abbrev pub v3_scoped : ℤ → EngineState → ScopedPdu
  v3_scoped id e = record {
    context_engine_id = e.engine_id;
    context_name = [];
    pdu = record pdu { request_id = id };
  }

  -- Behind the exchange of an attempt; `again` is the next attempt.
  unfoldable pub after_exchange : (Run → Completion) → Bool → ℕ → Run × Option Failure → Completion
  after_exchange again may_retry ref (r, some e) = (r, (some e, no_response))
  after_exchange again may_retry ref (r, none) =
      let p = request_at ref r.impl in
      if is_report p.response.type
      then (let (s, failure) = handle_report r.now target.endpoint p may_retry r.impl in
          reported again r s failure)
      else if p.reply_authenticated
      then (
        record r { impl = observe_engine_time r.now target.endpoint p.security r.impl },
        to_result p.response,
      )
      else (r, to_result p.response)

  -- One attempt at the engine that is there, with its keys.
  unfoldable pub ask_v3 :
      (Run → Completion) → Bool → EngineState → Octets × Octets → Run → Completion
  ask_v3 again may_retry e (key, priv_key) r =
      let (s, id) = next_id r.impl in
      elim (encode_v3_message crypto (salt r) (new_header id creds.level) (v3_usm r e)
        (v3_scoped id e) creds.auth_protocol key creds.priv_protocol priv_key) [
          | fault x ↦ (record r { impl = s }, (some (library x), no_response))
          | done datagram ↦
              let (s1, ref) = make_shared (asked_v3 target creds e.engine_id key priv_key id) s in
              after_exchange again may_retry ref
                (transact crypto is_v6 open_socket target datagram id ref (record r { impl = s1 }))
        ]

  unfoldable pub attempt_v3 : (Run → Completion) → Bool → EngineState → Run → Completion
  attempt_v3 again may_retry e r =
      let (s, keys) = keys_for crypto creds e.engine_id r.impl in
      elim keys [
        | fault x ↦ (record r { impl = s }, (some (library x), no_response))
        | done ks ↦ ask_v3 again may_retry e ks (record r { impl = s })
      ]

  unfoldable pub v3_round : (Run → Completion) → Bool → Run → Completion
  v3_round again may_retry r =
      let (r1, failure) = ensure_engine crypto target creds r in
      elim failure [
        | some e ↦ (r1, (some e, no_response))
        | none ↦ elim (engine_at target.endpoint r1.impl) [
          | none ↦ (r1, (some (library unknown_engine_id), no_response))
          | some (id, e) ↦ attempt_v3 again may_retry e r1
        ]
      ]

  -- `for (int attempt = 0; attempt < 2; ++attempt)`, from an attempt on; the attempts that are left.
  unfoldable pub v3_loop : ℕ → Bool → Run → Completion
  v3_loop zero first r = (r, (some (library unexpected_report), no_response))
  v3_loop (suc n) first r = v3_round (v3_loop n false) first r

  unfoldable pub do_request_v3 : Run → Completion
  do_request_v3 r =
      if r.impl.stopping
      then (r, (some (library client_stopped), no_response))
      else (let r1 : Run = record r { cancelled = no_signal } in
          if is_encrypted creds.level && is_no_priv creds.priv_protocol
          then (r1, (some (library unsupported_priv_protocol), no_response))
          else if is_authenticated creds.level && is_no_auth creds.auth_protocol
          then (r1, (some (library unsupported_auth_protocol), no_response))
          else v3_loop 2 true r1)

-- `std::variant<Community, Credentials>`
pub data Auth : Type 0 where
  community : Octets → Auth
  credentials : Credentials → Auth

unfoldable pub do_request :
    Crypto
    → (Endpoint → Bool)
    → (Bool → ℕ → Option ℕ)
    → (Run → ℕ)
    → Target
    → Auth
    → Pdu
    → Run
    → Completion
do_request crypto is_v6 open_socket salt target (community c) pdu r =
    do_request_v2c crypto is_v6 open_socket target c pdu r
do_request crypto is_v6 open_socket salt target (credentials c) pdu r =
    do_request_v3 crypto is_v6 open_socket salt target c pdu r
