-- ===== src/Client/Deliver.antt =====
-- `receiveLoop`, `deliverV2c` and `deliverV3` of src/Client.cpp: what a datagram does to the request
-- that it claims to answer.
pub mod Reply
pub mod Receive
pub mod Frame
use snmpio.Common.{
  ℕ, Bool, true, false, not, ◌&&◌, ◌||◌, Option, none, some, List, [], ◌∷◌, ◌==◌, if◌then◌else◌,
}
use snmpio.Common.Int32.{ℤ, same_int}
use snmpio.Common.Map.{same_octets}
use snmpio.Error.{Errc, auth_failed, decryption_failed, not_in_time_window}
use snmpio.Value.{Octets}
use snmpio.Pdu.{Pdu, V2cMessage, message_version, version_v2c, decode_v2c_message}
use snmpio.Usm.{Crypto, is_authenticated, is_encrypted}
use snmpio.V3Message.{V3Message, version_v3}
use snmpio.V3Message.Decode.{decode_v3_message, decrypt_scoped_pdu, verify_auth}
use snmpio.Client.{Impl, Pending, Endpoint, modify}
use snmpio.Client.Report.{is_report, is_response, reports_not_in_time_windows}
use snmpio.Client.Clock.{timely}

-- What a v2c Response does to the request with its id.
unfoldable pub accept_v2c : Endpoint → V2cMessage → Pending → Pending
accept_v2c from msg p =
    if p.v3
    then p
    else if not (from == p.from) || not (same_octets msg.community p.community)
    then p
    else record p { response = msg.pdu; answered = true }

-- The request that is outstanding under this id, if there is one.
unfoldable pub at_pending : ℤ → (Pending → Pending) → Impl → Impl
at_pending id f s = elim (s.pending id) [ none ↦ s | some ref ↦ modify ref f s ]

unfoldable pub deliver_v2c : Octets → Endpoint → Impl → Impl
deliver_v2c datagram from s = elim (decode_v2c_message datagram).1 [
  | none ↦ s
  | some msg ↦
      if not (is_response msg.pdu.type)
      then s
      else at_pending msg.pdu.request_id (accept_v2c from msg) s
]

abbrev pub drop_for : Errc → Pending → Pending
drop_for e p = record p { drop_reason = some e }

-- Whether the message may be believed unsigned.
unfoldable pub is_exempt : V3Message → Bool
is_exempt msg =
    not (is_encrypted msg.header.level)
    && not (is_authenticated msg.header.level)
    && is_report msg.scoped.pdu.type

unfoldable pub take_reply : Bool → V3Message → Pending → Pending
take_reply authenticated msg p = record p {
  security = msg.security;
  response = msg.scoped.pdu;
  reply_authenticated = authenticated;
  answered = true;
}

-- The checks on a message that is open; `on_time` is its timeliness.
unfoldable pub judge : Bool → Bool → V3Message → Pending → Pending
judge authenticated on_time msg p =
    if p.time_sync_phase && not authenticated && reports_not_in_time_windows msg.scoped.pdu
    then drop_for not_in_time_window p
    else if is_report msg.scoped.pdu.type
    then take_reply authenticated msg p
    else if not (same_octets p.engine_id []) && not (same_octets msg.security.engine_id p.engine_id)
    then p
    else if not (same_int msg.scoped.pdu.request_id p.request_id)
    then p
    else if not (is_response msg.scoped.pdu.type)
    then p
    else if p.auth_required && not on_time
    then drop_for not_in_time_window p
    else take_reply authenticated msg p

module _ (crypto : Crypto) where
  unfoldable pub open_reply : Bool → Bool → V3Message → Pending → Pending
  open_reply authenticated on_time msg p =
      if is_encrypted msg.header.level
      then (let (e, opened) = decrypt_scoped_pdu crypto msg p.priv_protocol p.priv_key in
          elim e [
            | some _ ↦ drop_for decryption_failed p
            | none ↦ judge authenticated on_time opened p
          ])
      else judge authenticated on_time msg p

  -- What a v3 message does to the request with its msgID.
  unfoldable pub accept_v3 : Endpoint → Octets → Bool → V3Message → Pending → Pending
  accept_v3 from datagram on_time msg p =
      if not p.v3
      then p
      else if not (from == p.from)
      then p
      else if p.auth_required && not (is_exempt msg)
      then elim (verify_auth crypto datagram msg p.auth_protocol p.auth_key) [
        | some _ ↦ drop_for auth_failed p
        | none ↦ open_reply true on_time msg p
      ]
      else open_reply false on_time msg p

  unfoldable pub deliver_v3 : ℕ → Octets → Endpoint → Impl → Impl
  deliver_v3 now datagram from s = elim (decode_v3_message datagram).1 [
    | none ↦ s
    | some msg ↦
        at_pending msg.header.msg_id (accept_v3 from datagram (timely now from msg.security s) msg)
          s
  ]

  -- One round of the receive loop.
  unfoldable pub receive : ℕ → Octets → Endpoint → Impl → Impl
  receive now datagram from s = elim (message_version datagram) [
    | none ↦ s
    | some version ↦
        if same_int version version_v2c
        then deliver_v2c datagram from s
        else if same_int version version_v3
        then deliver_v3 now datagram from s
        else s
  ]
