-- ===== src/V3Message/Decode.antt =====
-- `decodeV3Message`, `decryptScopedPdu` and `verifyAuth` of src/V3Message.cpp.
use snmpio.Ber.Reader.Fields
use snmpio.Common.{
  ℕ, ◌+◌, ◌-◌, ◌/◌, ◌%◌, not, ◌||◌, Option, none, some, [], ltb, ◌==◌, if◌then◌else◌, length,
  get_or, replicate,
}
use snmpio.Common.Int32.{ℤ}
use snmpio.Error.{
  Errc, bad_version, bad_message_flags, unsupported_security_model, auth_failed, decryption_failed,
}
use snmpio.Value.{Octets}
use snmpio.Ber.Tag
use snmpio.Ber.Reader
use snmpio.Ber.Reader.{Reader, Scope}
use snmpio.Pdu.{is_version, finished}
use snmpio.Usm.{
  AuthProtocol, PrivProtocol, SecurityLevel, no_auth_no_priv, auth_no_priv, auth_priv,
  is_authenticated, is_encrypted, auth_params_size, Crypto, done, fault, priv_decrypt, auth_digest,
}
use snmpio.V3Message.{
  V3Header, UsmParameters, V3Message, no_scoped, version_v3, security_model_usm, decode_scoped_pdu,
  overwrite,
}

-- Inside a scope: the reader, the code that `ec` is given if the decoder returns there, and otherwise
-- the value.
abbrev pub Step : Type 0 → Type 0
Step A = Reader × (Option Errc × Option A)

abbrev pub stop : {A : Type 0} → Reader → Step A
stop r = (r, (r.ec, none))

abbrev pub refuse : {A : Type 0} → Errc → Reader → Step A
refuse e r = (r, (some e, none))

abbrev pub proceed : {A : Type 0} → Reader → A → Step A
proceed r a = (r, (none, some a))

abbrev pub next_step : {A B : Type 0} → Step A → (A → Reader → Step B) → Step B
next_step (r, (e, none)) f = (r, (e, none))
next_step (r, (e, some a)) f = f a r

-- The two low bits of the flags, of which 0x02 alone was refused.
unfoldable pub level_of : ℕ → SecurityLevel
level_of flags =
    if flags % 4 == 0 then no_auth_no_priv else if flags % 4 == 1 then auth_no_priv else auth_priv

unfoldable pub header_fields :
    Option ℤ → Option ℤ → Option Octets → Option ℤ → Reader → Step V3Header
header_fields (some msg_id) (some max_size) (some flags) (some model) r =
    let bits = get_or flags 0 0 in
    if not (length flags == 1) || bits % 4 == 2
    then refuse bad_message_flags r
    else proceed r (record {
      msg_id = msg_id;
      max_size = max_size;
      level = level_of bits;
      reportable = not (bits / 4 % 2 == 0);
      security_model = model;
    })
header_fields _ _ _ _ r = stop r

unfoldable pub header_body : Reader → Step V3Header
header_body r =
    let (r1, msg_id) = Fields.integer Tag.integer r in
    let (r2, max_size) = Fields.integer Tag.integer r1 in
    let (r3, flags) = Reader.octet_string Tag.octet_string r2 in
    let (r4, model) = Fields.integer Tag.integer r3 in header_fields msg_id max_size flags model r4

-- `{ const auto scope = r.enter(ber::tag::sequence); body }`
unfoldable pub step_in_scope : {A : Type 0} → (Reader → Step A) → Reader → Step A
step_in_scope body r =
    let (r1, s) = Reader.enter Tag.sequence r in
    let (r2, result) = body r1 in (Reader.leave s r2, result)

-- Behind the header's scope.
unfoldable pub check_header : V3Header → Reader → Step V3Header
check_header h r =
    if Reader.has_error r
    then stop r
    else if not (is_version h.security_model security_model_usm)
    then refuse unsupported_security_model r
    else proceed r h

-- The parameters, and where the digest begins in them.
unfoldable pub usm_fields :
    Option Octets
    → Option ℤ
    → Option ℤ
    → Option Octets
    → Option Octets
    → ℕ
    → Option Octets
    → Reader
    → Step (UsmParameters × ℕ)
usm_fields (some engine_id) (some boots) (some time) (some user) (some auth) after (some priv) r =
    proceed r (
      record {
        engine_id = engine_id;
        boots = boots;
        time = time;
        user_name = user;
        auth_params = auth;
        priv_params = priv;
      },
      after - length auth,
    )
usm_fields _ _ _ _ _ _ _ r = stop r

unfoldable pub usm_body : Reader → Step (UsmParameters × ℕ)
usm_body r =
    let (r1, engine_id) = Reader.octet_string Tag.octet_string r in
    let (r2, boots) = Fields.integer Tag.integer r1 in
    let (r3, time) = Fields.integer Tag.integer r2 in
    let (r4, user) = Reader.octet_string Tag.octet_string r3 in
    let (r5, auth) = Reader.octet_string Tag.octet_string r4 in
    let (r6, priv) = Reader.octet_string Tag.octet_string r5 in
    usm_fields engine_id boots time user auth r5.pos priv r6

-- A reader of its own over the parameters.
unfoldable pub decode_usm : Octets → Option Errc × Option (UsmParameters × ℕ)
decode_usm params =
    let (sub, result) = step_in_scope usm_body (Reader.over params) in finished sub result

-- The content that was borrowed last ends at the cursor.
unfoldable pub decode_security : Option Octets → Reader → Step (UsmParameters × ℕ)
decode_security none r = stop r
decode_security (some params) r =
    let base = r.pos - length params in
    let (e, usm) = decode_usm params in
    elim usm [ none ↦ (r, (e, none)) | some u ↦ proceed r (u.0, base + u.1) ]

unfoldable pub with_payload : V3Header → UsmParameters × ℕ → Reader → Step V3Message
with_payload h (usm, offset) r =
    if is_encrypted h.level
    then (let (r1, encrypted) = Reader.octet_string Tag.octet_string r in
        elim encrypted [
          | none ↦ stop r1
          | some e ↦ proceed r1 (record {
            header = h;
            security = usm;
            scoped = no_scoped;
            encrypted_pdu = e;
            auth_params_offset = offset;
          })
        ])
    else (let (r1, scoped) = decode_scoped_pdu r in
        elim scoped [
          | none ↦ stop r1
          | some s ↦ proceed r1 (record {
            header = h;
            security = usm;
            scoped = s;
            encrypted_pdu = [];
            auth_params_offset = offset;
          })
        ])

unfoldable pub check_version : Option ℤ → Reader → Step (Unit {0})
check_version none r = stop r
check_version (some version) r =
    if not (is_version version version_v3) then refuse bad_version r else proceed r tt

unfoldable pub v3_body : Reader → Step V3Message
v3_body r =
    let (r1, version) = Fields.integer Tag.integer r in
    next_step (check_version version r1) (λ u r2.
      next_step (next_step (step_in_scope header_body r2) check_header) (λ header r3.
        let (r4, params) = Reader.octet_string Tag.octet_string r3 in
        next_step (decode_security params r4) (with_payload header)))

unfoldable pub decode_v3_message : Octets → Option Errc × Option V3Message
decode_v3_message datagram =
    let (r, result) = step_in_scope v3_body (Reader.over datagram) in finished r result

module _ (crypto : Crypto) where
  -- `ec`, and the message, which is opened if there is no error.
  unfoldable pub decrypt_scoped_pdu : V3Message → PrivProtocol → Octets → Option Errc × V3Message
  decrypt_scoped_pdu msg priv priv_key =
      elim (priv_decrypt crypto priv priv_key msg.security.boots msg.security.time
        msg.security.priv_params msg.encrypted_pdu) [
          | fault e ↦ (some e, msg)
          | done plain ↦ elim (decode_scoped_pdu (Reader.over plain)).1 [
            | none ↦ (some decryption_failed, msg)
            | some s ↦ (none, record msg { scoped = s })
          ]
        ]

  unfoldable pub compare_digest : Octets → Octets → Option Errc
  compare_digest expected received =
      if not (length expected == length received) || not (crypto.memcmp expected received == 0)
      then some auth_failed
      else none

  -- `ec`: the datagram is authentic if there is none.
  unfoldable pub verify_auth : Octets → V3Message → AuthProtocol → Octets → Option Errc
  verify_auth datagram msg auth localized_key =
      let width = length msg.security.auth_params in
      if not (is_authenticated msg.header.level) || not (width == auth_params_size auth)
      then some auth_failed
      else if ltb (length datagram) (msg.auth_params_offset + width)
      then some auth_failed
      else elim (auth_digest crypto auth localized_key
          (overwrite (replicate width 0) msg.auth_params_offset datagram)) [
            | fault e ↦ some e
            | done expected ↦ compare_digest expected msg.security.auth_params
          ]
