-- ===== src/Pdu.antt =====
-- include/snmpio/Pdu.hpp and src/Pdu.cpp: Protocol Data Units and the SNMPv2c message.
pub mod Representable
pub mod RoundTrip
pub mod Decoded
pub mod Verdict
pub mod Message
use snmpio.Ber.Reader.Fields
use snmpio.Common.{ℕ, Bool, false, not, ◌||◌, Option, none, some, List, [], ◌==◌, if◌then◌else◌}
use snmpio.Common.Int32.{ℤ, pos, negsuc}
use snmpio.Error.{Errc, truncated, unexpected_pdu_type, bad_version}
use snmpio.Value.{Octets, Varbind}
use snmpio.Ber.Tag
use snmpio.Ber.Writer
use snmpio.Ber.Writer.{Writer}
use snmpio.Ber.Reader
use snmpio.Ber.Reader.{Reader, Read, fails}

pub data PduType : Type 0 where
  get get_next get_bulk set response report : PduType

-- The enumerators are valued as their BER identifier octets.
unfoldable pub pdu_tag : PduType → ℕ
pdu_tag get = Tag.get_request
pdu_tag get_next = Tag.get_next_request
pdu_tag get_bulk = Tag.get_bulk_request
pdu_tag set = Tag.set_request
pdu_tag response = Tag.response
pdu_tag report = Tag.report

unfoldable pub is_pdu_tag : ℕ → Bool
is_pdu_tag t =
    t == Tag.get_request
    || t == Tag.get_next_request
    || t == Tag.get_bulk_request
    || t == Tag.set_request
    || t == Tag.response
    || t == Tag.report

-- `static_cast<PduType>`, which is reached with the six tags alone.
unfoldable pub pdu_type_of : ℕ → PduType
pdu_type_of t =
    if t == Tag.get_request
    then get
    else if t == Tag.get_next_request
    then get_next
    else if t == Tag.get_bulk_request
    then get_bulk
    else if t == Tag.set_request
    then set
    else if t == Tag.response
    then response
    else report

pub record Pdu : Type 0 where
  pub type : PduType
  pub request_id : ℤ
  pub error_status : ℤ
  pub error_index : ℤ
  pub varbinds : List Varbind

-- GETBULK keeps its two parameters in the slots of error-status and error-index.
unfoldable pub set_bulk_params : ℤ → ℤ → Pdu → Pdu
set_bulk_params non_repeaters max_repetitions p = record p {
  error_status = non_repeaters;
  error_index = max_repetitions;
}

abbrev pub put_fields : Pdu → Writer → Writer
put_fields p w = Writer.varbind_list p.varbinds (
    Writer.integer Tag.integer p.error_index
      (Writer.integer Tag.integer p.error_status (Writer.integer Tag.integer p.request_id w)))

unfoldable pub encode_pdu : Pdu → Writer → Writer
encode_pdu p = Writer.in_scope (pdu_tag p.type) (put_fields p)

-- `if (!requestId || !errorStatus || !errorIndex || !varbinds) return std::nullopt;`
unfoldable pub all_present :
    PduType → Option ℤ → Option ℤ → Option ℤ → Option (List Varbind) → Option Pdu
all_present type (some i) (some s) (some x) (some vbs) =
    some (record { type = type; request_id = i; error_status = s; error_index = x; varbinds = vbs })
all_present type _ _ _ _ = none

-- The four reads run one after the other, whether or not an earlier one failed.
unfoldable pub pdu_body : PduType → Read Pdu
pdu_body type r =
    let (r1, request_id) = Fields.integer Tag.integer r in
    let (r2, error_status) = Fields.integer Tag.integer r1 in
    let (r3, error_index) = Fields.integer Tag.integer r2 in
    let (r4, varbinds) = Fields.varbind_list r3 in
    (r4, all_present type request_id error_status error_index varbinds)

unfoldable pub pdu_of_tag : ℕ → Read Pdu
pdu_of_tag t r =
    if not (is_pdu_tag t)
    then fails unexpected_pdu_type r
    else Reader.unless_failed (Reader.in_scope t (pdu_body (pdu_type_of t)) r)

unfoldable pub pdu_at : Option ℕ → Read Pdu
pdu_at none r = fails truncated r
pdu_at (some t) r = pdu_of_tag t r

unfoldable pub decode_pdu : Read Pdu
decode_pdu r = if Reader.has_error r then (r, none) else pdu_at (Reader.peek_tag r) r

unfoldable pub message_version : List ℕ → Option ℤ
message_version datagram =
    (Reader.in_scope Tag.sequence (Fields.integer Tag.integer) (Reader.over datagram)).1

abbrev pub version_v2c : ℤ
version_v2c = pos 1

pub record V2cMessage : Type 0 where
  pub community : Octets
  pub pdu : Pdu

abbrev pub put_message : Octets → Pdu → Writer → Writer
put_message community pdu w =
    encode_pdu pdu
      (Writer.octet_string Tag.octet_string community (Writer.integer Tag.integer version_v2c w))

abbrev pub taken : Writer → Option Errc × List ℕ
taken w = elim w.ec [ none ↦ (none, w.buf) | some e ↦ (some e, []) ]

-- The error code, and the datagram.
unfoldable pub encode_v2c_message : Octets → Pdu → Option Errc × List ℕ
encode_v2c_message community pdu =
    taken (Writer.in_scope Tag.sequence (put_message community pdu) Writer.new)

-- The error code, and the message unless there was one.
abbrev pub Decoded : Type 0 → Type 0
Decoded A = Option Errc × Option A

abbrev pub is_version : ℤ → ℤ → Bool
is_version (pos n) (pos m) = n == m
is_version (negsuc n) (negsuc m) = n == m
is_version _ _ = false

-- Inside the message's scope: the code that `ec` is given there, if the decoder returns there.
unfoldable pub v2c_pdu : Octets → Reader × Option Pdu → Reader × (Option Errc × Option V2cMessage)
v2c_pdu community (r, none) = (r, (r.ec, none))
v2c_pdu community (r, some pdu) = (r, (none, some (record { community = community; pdu = pdu })))

unfoldable pub v2c_fields :
    Option ℤ → Option Octets → Reader → Reader × (Option Errc × Option V2cMessage)
v2c_fields (some version) (some community) r =
    if not (is_version version version_v2c)
    then (r, (some bad_version, none))
    else v2c_pdu community (decode_pdu r)
v2c_fields _ _ r = (r, (r.ec, none))

unfoldable pub v2c_body : Reader → Reader × (Option Errc × Option V2cMessage)
v2c_body r =
    let (r1, version) = Fields.integer Tag.integer r in
    let (r2, community) = Reader.octet_string Tag.octet_string r1 in v2c_fields version community r2

-- `if (!r.finish()) { ec = r.error(); return std::nullopt; }`
unfoldable pub finished {ℓ} :
    {A : Type ℓ} → Reader → Option Errc × Option A → Option Errc × Option A
finished r (e, none) = (e, none)
finished r (e, some m) =
    let (r1, done) = Reader.finish r in if done then (none, some m) else (r1.ec, none)

unfoldable pub decode_v2c_message : List ℕ → Option Errc × Option V2cMessage
decode_v2c_message datagram =
    let (r1, s) = Reader.enter Tag.sequence (Reader.over datagram) in
    let (r2, result) = v2c_body r1 in finished (Reader.leave s r2) result
