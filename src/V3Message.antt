-- ===== src/V3Message.antt =====
-- include/snmpio/V3Message.hpp and src/V3Message.cpp: SNMPv3 messages.
pub mod Decode
pub mod Layout
pub mod Frame
pub mod Parts
pub mod Parameters
pub mod Payload
pub mod Signed
pub mod Authentic
pub mod Private
pub mod RoundTrip
use snmpio.Common.{
  ℕ, zero, suc, ◌+◌, ◌-◌, ◌/◌, ◌%◌, Bool, true, false, not, ◌||◌, Option, none, some, List, [], ◌∷◌,
  ◌++◌, ltb, ◌==◌, if◌then◌else◌, length, get_or, set, replicate,
}
use snmpio.Common.Int32.{ℤ, pos}
use snmpio.Error.{
  Errc, bad_version, bad_message_flags, unsupported_security_model, unsupported_auth_protocol,
  unsupported_priv_protocol, auth_failed, decryption_failed,
}
use snmpio.Value.{Octets}
use snmpio.Ber.Tag
use snmpio.Ber.Writer
use snmpio.Ber.Writer.{Writer}
use snmpio.Ber.Reader
use snmpio.Ber.Reader.{Reader, Read, Scope}
use snmpio.Pdu.{Pdu, PduType, encode_pdu, decode_pdu, is_version, finished}
use snmpio.Usm.{
  AuthProtocol, PrivProtocol, SecurityLevel, no_auth_no_priv, auth_no_priv, auth_priv, level_bits,
  is_authenticated, is_encrypted, is_no_auth, is_no_priv, auth_params_size, Crypto, Result, done,
  fault, on_success, priv_encrypt, priv_decrypt, auth_digest,
}

abbrev pub version_v3 : ℤ
version_v3 = pos 3

abbrev pub security_model_usm : ℤ
security_model_usm = pos 3

pub record V3Header : Type 0 where
  pub msg_id : ℤ
  pub max_size : ℤ
  pub level : SecurityLevel
  pub reportable : Bool
  pub security_model : ℤ

pub record UsmParameters : Type 0 where
  pub engine_id : Octets
  pub boots : ℤ
  pub time : ℤ
  pub user_name : Octets
  pub auth_params : Octets
  pub priv_params : Octets

pub record ScopedPdu : Type 0 where
  pub context_engine_id : Octets
  pub context_name : Octets
  pub pdu : Pdu

pub record V3Message : Type 0 where
  pub header : V3Header
  pub security : UsmParameters
  pub scoped : ScopedPdu
  pub encrypted_pdu : Octets
  pub auth_params_offset : ℕ

-- A `ScopedPdu` that nothing was assigned to.
abbrev pub no_scoped : ScopedPdu
no_scoped = record {
  context_engine_id = [];
  context_name = [];
  pdu = record {
    type = PduType.get;
    request_id = pos 0;
    error_status = pos 0;
    error_index = pos 0;
    varbinds = [];
  };
}

-- The bits of the level are below the one that `|=` sets.
unfoldable pub encode_flags : V3Header → ℕ
encode_flags h = level_bits h.level + (if h.reportable then 4 else 0)

abbrev pub put_string : Octets → Writer → Writer
put_string v w = Writer.octet_string Tag.octet_string v w

abbrev pub put_integer : ℤ → Writer → Writer
put_integer v w = Writer.integer Tag.integer v w

-- The writer, and where the blank digest was written.
unfoldable pub encode_usm_content : UsmParameters → ℕ → Octets → Writer → Writer × ℕ
encode_usm_content usm auth_width priv_params w =
    let w1 =
      put_string usm.user_name
        (put_integer usm.time (put_integer usm.boots (put_string usm.engine_id w))) in
    (put_string priv_params (put_string (replicate auth_width 0) w1), length w1.buf + 2)

unfoldable pub encode_scoped_pdu : ScopedPdu → Writer → Writer
encode_scoped_pdu s =
    Writer.in_scope Tag.sequence
      (λ w. encode_pdu s.pdu (put_string s.context_name (put_string s.context_engine_id w)))

-- `if (!engine || !context) return std::nullopt;` and then the PDU.
unfoldable pub scoped_fields : Option Octets → Option Octets → Read ScopedPdu
scoped_fields (some engine) (some context) r =
    (Reader.◌>>=◌ decode_pdu (λ pdu.
        Reader.return (record { context_engine_id = engine; context_name = context; pdu = pdu })))
      r
scoped_fields _ _ r = (r, none)

unfoldable pub scoped_body : Read ScopedPdu
scoped_body r =
    let (r1, engine) = Reader.octet_string Tag.octet_string r in
    let (r2, context) = Reader.octet_string Tag.octet_string r1 in scoped_fields engine context r2

unfoldable pub decode_scoped_pdu : Read ScopedPdu
decode_scoped_pdu r = Reader.unless_failed (Reader.in_scope Tag.sequence scoped_body r)

-- `std::ranges::copy` and `std::fill_n` into a buffer.
unfoldable pub overwrite : List ℕ → ℕ → List ℕ → List ℕ
overwrite [] at buf = buf
overwrite (b ∷ bs) at buf = overwrite bs (at + 1) (set buf at b)

abbrev pub put_global_data : V3Header → Writer → Writer
put_global_data h w =
    put_integer h.security_model
      (put_string (encode_flags h ∷ []) (put_integer h.max_size (put_integer h.msg_id w)))

-- The first of the stages that has an error.
abbrev pub first_error : List Writer → Option Errc
first_error [] = none
first_error (w ∷ ws) = elim w.ec [ none ↦ first_error ws | some e ↦ some e ]

-- The offset, which each layer that is wrapped shifts, and the test of the stages' errors.
unfoldable pub assembled :
    Writer → Writer → Writer → Writer → Writer → Writer → ℕ → Result (Octets × ℕ)
assembled scoped_content usm_content usm_params with_params body w offset0 =
    let offset1 = offset0 + (length usm_params.buf - length usm_content.buf) in
    let offset2 = offset1 + (length with_params.buf - length usm_params.buf) in
    let offset3 = offset2 + (length w.buf - length body.buf) in
    elim (first_error (scoped_content ∷ usm_content ∷ usm_params ∷ body ∷ w ∷ [])) [
      | some e ↦ fault e
      | none ↦ done (w.buf, offset3)
    ]

-- The datagram with a blank digest, and where the digest is to go. `put_data` gives the body its last
-- field.
unfoldable pub wrap_message :
    V3Header → UsmParameters → ℕ → Octets → Writer → (Writer → Writer) → Result (Octets × ℕ)
wrap_message header usm auth_width priv_params scoped_content put_data =
    let (usm_content, offset0) = encode_usm_content usm auth_width priv_params Writer.new in
    let usm_params = Writer.tlv Tag.sequence usm_content.buf Writer.new in
    let body1 =
      Writer.in_scope Tag.sequence (put_global_data header) (put_integer version_v3 Writer.new) in
    let with_params = put_string usm_params.buf body1 in
    let body = put_data with_params in
    let w = Writer.tlv Tag.sequence body.buf Writer.new in
    assembled scoped_content usm_content usm_params with_params body w offset0

module _ (crypto : Crypto) where
  unfoldable pub sign : AuthProtocol → Octets → Bool → Result (Octets × ℕ) → Result Octets
  sign auth localized_key authenticate whole = on_success whole (λ p.
      if not authenticate
      then done p.0
      else on_success (auth_digest crypto auth localized_key p.0)
          (λ digest. done (overwrite digest p.1 p.0)))

  -- `salt` is what `nextSalt` returned.
  unfoldable pub encode_v3_message :
      ℕ
      → V3Header
      → UsmParameters
      → ScopedPdu
      → AuthProtocol
      → Octets
      → PrivProtocol
      → Octets
      → Result Octets
  encode_v3_message salt header usm scoped auth localized_key priv priv_key =
      let encrypt = is_encrypted header.level in
      let authenticate = is_authenticated header.level in
      let auth_width = if authenticate then auth_params_size auth else 0 in
      let scoped_content = encode_scoped_pdu scoped Writer.new in
      if (if encrypt then is_no_priv priv else false)
      then fault unsupported_priv_protocol
      else if (if authenticate then is_no_auth auth else false)
      then fault unsupported_auth_protocol
      else if encrypt
      then on_success (priv_encrypt crypto salt priv priv_key usm.boots usm.time scoped_content.buf)
          (λ c.
            sign auth localized_key authenticate
              (wrap_message header usm auth_width c.0 scoped_content (put_string c.1)))
      else sign auth localized_key authenticate (
          wrap_message header usm auth_width usm.priv_params scoped_content
            (Writer.raw scoped_content.buf))
