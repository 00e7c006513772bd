-- ===== src/Tests/Messages.antt =====
-- An SNMPv3 request with a digest, and one that is encrypted as well, under the toy of Tests/Security.
use snmpio.Common.{replicate, false, ℕ, ◌<◌, ◌^◌, true, none, [], ◌∷◌, length, ◌≡◌, refl, arith}
use snmpio.Common.Int32.{pos, to_u32}
use snmpio.Common.Bytes.{bytes_be}
use snmpio.Value.{Octets}
use snmpio.Ber.Writer
use snmpio.Oid.{is_encodable}
use snmpio.Pdu.{encode_pdu, pdu_tag}
use snmpio.Usm.{
  AuthProtocol, PrivProtocol, SecurityLevel, Result, done, is_des, is_no_auth, is_no_priv,
  is_authenticated, is_encrypted, level_bits, priv_key_size, auth_params_size, padded, salt_octets,
  crypt, priv_encrypt, auth_digest,
}
use snmpio.V3Message.{
  V3Header, UsmParameters, ScopedPdu, encode_flags, encode_usm_content, encode_scoped_pdu,
  overwrite, assembled, wrap_message, sign, encode_v3_message,
}
use snmpio.V3Message.Decode.{decrypt_scoped_pdu}
use snmpio.V3Message.Parameters.{received}
use snmpio.V3Message.Payload.{scoped_octets, scoped_content}
use snmpio.Ber.Writer.Shape.{element, length_bytes}
use snmpio.Ber.Writer.Values.{value_octets, varbind_octets, varbinds_octets}
use snmpio.Pdu.RoundTrip.{pdu_octets, fields_octets}
use snmpio.V3Message.Authentic.{
  IsUsmRequest, IsAuthentic, encode_v3_message-IsAuthentic, HasMac, encode_v3_message-done,
}
use snmpio.V3Message.Private.{sealed_as, encode_v3_message-private}
use snmpio.Tests.Codec.{bulk, bulk-IsRepresentablePdu, encoded}
use snmpio.Tests.Security.{toy, toy_inverse, key}

abbrev header : SecurityLevel → V3Header
header level = record {
  msg_id = pos 1;
  max_size = pos 65507;
  level = level;
  reportable = true;
  security_model = pos 3;
}

abbrev usm : UsmParameters
usm = record {
  engine_id = 5 ∷ [];
  boots = pos 2;
  time = pos 9;
  user_name = b'a' ∷ [];
  auth_params = [];
  priv_params = [];
}

abbrev scoped : ScopedPdu
scoped = record { context_engine_id = 5 ∷ []; context_name = []; pdu = bulk }

request-IsUsmRequest : (level : SecurityLevel) → IsUsmRequest (header level) usm scoped
request-IsUsmRequest level = record {
  header = record { msg_id = omega arith; max_size = omega arith; model = refl };
  boots = omega arith;
  time = omega arith;
  pdu = bulk-IsRepresentablePdu;
}

run : SecurityLevel → Result Octets
run level =
    encode_v3_message toy 260 (header level) usm scoped AuthProtocol.sha1 key PrivProtocol.des key

abbrev signed_request : Octets
signed_request =
    48 ∷ 93 ∷ 2 ∷ 1 ∷ 3 ∷ 48 ∷ 14 ∷ 2 ∷ 1 ∷ 1 ∷ 2 ∷ 3 ∷ 0 ∷ 255 ∷ 227 ∷ 4 ∷ 1 ∷ 5 ∷ 2 ∷ 1 ∷ 3 ∷ 4
    ∷ 30 ∷ 48 ∷ 28 ∷ 4 ∷ 1 ∷ 5 ∷ 2 ∷ 1 ∷ 2 ∷ 2 ∷ 1 ∷ 9 ∷ 4 ∷ 1 ∷ 97 ∷ 4 ∷ 12 ∷ 9 ∷ 9 ∷ 9 ∷ 9 ∷ 9 ∷ 9
    ∷ 9 ∷ 9 ∷ 9 ∷ 9 ∷ 9 ∷ 9 ∷ 4 ∷ 0 ∷ 48 ∷ 40 ∷ 4 ∷ 1 ∷ 5 ∷ 4 ∷ 0 ∷ 165 ∷ 33 ∷ 2 ∷ 3 ∷ 1 ∷ 17 ∷ 112
    ∷ 2 ∷ 2 ∷ 255 ∷ 127 ∷ 2 ∷ 1 ∷ 127 ∷ 48 ∷ 19 ∷ 48 ∷ 17 ∷ 6 ∷ 4 ∷ 43 ∷ 6 ∷ 130 ∷ 44 ∷ 70 ∷ 9 ∷ 0
    ∷ 255 ∷ 255 ∷ 255 ∷ 255 ∷ 255 ∷ 255 ∷ 255 ∷ 255 ∷ []

abbrev sealed_request : Octets
sealed_request =
    48 ∷ 109 ∷ 2 ∷ 1 ∷ 3 ∷ 48 ∷ 14 ∷ 2 ∷ 1 ∷ 1 ∷ 2 ∷ 3 ∷ 0 ∷ 255 ∷ 227 ∷ 4 ∷ 1 ∷ 7 ∷ 2 ∷ 1 ∷ 3 ∷ 4
    ∷ 38 ∷ 48 ∷ 36 ∷ 4 ∷ 1 ∷ 5 ∷ 2 ∷ 1 ∷ 2 ∷ 2 ∷ 1 ∷ 9 ∷ 4 ∷ 1 ∷ 97 ∷ 4 ∷ 12 ∷ 9 ∷ 9 ∷ 9 ∷ 9 ∷ 9 ∷ 9
    ∷ 9 ∷ 9 ∷ 9 ∷ 9 ∷ 9 ∷ 9 ∷ 4 ∷ 8 ∷ 0 ∷ 0 ∷ 0 ∷ 2 ∷ 0 ∷ 0 ∷ 1 ∷ 4 ∷ 4 ∷ 48 ∷ 48 ∷ 40 ∷ 4 ∷ 1 ∷ 5
    ∷ 4 ∷ 0 ∷ 165 ∷ 33 ∷ 2 ∷ 3 ∷ 1 ∷ 17 ∷ 112 ∷ 2 ∷ 2 ∷ 255 ∷ 127 ∷ 2 ∷ 1 ∷ 127 ∷ 48 ∷ 19 ∷ 48 ∷ 17
    ∷ 6 ∷ 4 ∷ 43 ∷ 6 ∷ 130 ∷ 44 ∷ 70 ∷ 9 ∷ 0 ∷ 255 ∷ 255 ∷ 255 ∷ 255 ∷ 255 ∷ 255 ∷ 255 ∷ 255 ∷ 0 ∷ 0
    ∷ 0 ∷ 0 ∷ 0 ∷ 0 ∷ []

signed_run : run SecurityLevel.auth_no_priv ≡ done signed_request
unfolding run encode_v3_message is_encrypted is_authenticated is_no_priv is_no_auth auth_params_size
    level_bits encode_flags encode_usm_content encode_scoped_pdu overwrite assembled wrap_message
    sign auth_digest priv_encrypt priv_key_size is_des crypt padded salt_octets Writer.raw
    Writer.tlv encoded encode_pdu pdu_tag Writer.new Writer.in_scope Writer.begin_constructed
    Writer.fail Writer.close_scope Writer.widen Writer.patch_length Writer.length_octets
    Writer.significant_loop Writer.put_length Writer.integer Writer.strip_sign Writer.unsigned64
    Writer.octet_string Writer.object_identifier Writer.subid_octets Writer.subid_loop Writer.groups
    Writer.write_value Writer.write_varbind Writer.varbind_list is_encodable bytes_be to_u32
signed_run = refl

sealed_run : run SecurityLevel.auth_priv ≡ done sealed_request
unfolding run encode_v3_message is_encrypted is_authenticated is_no_priv is_no_auth auth_params_size
    level_bits encode_flags encode_usm_content encode_scoped_pdu overwrite assembled wrap_message
    sign auth_digest priv_encrypt priv_key_size is_des crypt padded salt_octets Writer.raw
    Writer.tlv encoded encode_pdu pdu_tag Writer.new Writer.in_scope Writer.begin_constructed
    Writer.fail Writer.close_scope Writer.widen Writer.patch_length Writer.length_octets
    Writer.significant_loop Writer.put_length Writer.integer Writer.strip_sign Writer.unsigned64
    Writer.octet_string Writer.object_identifier Writer.subid_octets Writer.subid_loop Writer.groups
    Writer.write_value Writer.write_varbind Writer.varbind_list is_encodable bytes_be to_u32
sealed_run = refl

encode_v3_message-IsAuthentic_example :
    (digest : Octets) × ((at : ℕ) × IsAuthentic toy AuthProtocol.sha1 key signed_request (record {
      header = header SecurityLevel.auth_no_priv;
      security = received usm digest [];
      scoped = scoped;
      encrypted_pdu = [];
      auth_params_offset = at;
    }))
unfolding run
encode_v3_message-IsAuthentic_example =
    encode_v3_message-IsAuthentic toy 260 (header SecurityLevel.auth_no_priv) usm scoped
      AuthProtocol.sha1 key PrivProtocol.des key (request-IsUsmRequest SecurityLevel.auth_no_priv)
      (λ a. refl) signed_request refl signed_run (omega arith)

scoped_size : length (scoped_octets scoped) < 2 ^ 32
unfolding scoped_octets scoped_content pdu_octets fields_octets varbinds_octets varbind_octets
    value_octets element length_bytes Writer.strip_sign bytes_be Writer.groups Writer.subid_octets
    Writer.subid_loop Writer.length_octets to_u32 pdu_tag
scoped_size = omega arith

encode_v3_message-private_example :
    (priv_params : Octets) × ((ciphertext : Octets) × ((digest : Octets) × ((at : ℕ) × (let m =
              sealed_as (header SecurityLevel.auth_priv) usm priv_params ciphertext digest at in
            IsAuthentic toy AuthProtocol.sha1 key sealed_request m
            × (decrypt_scoped_pdu toy m PrivProtocol.des key
                ≡ (none, record m { scoped = scoped }))))))
unfolding run
encode_v3_message-private_example =
    encode_v3_message-private toy 260 (header SecurityLevel.auth_priv) usm scoped AuthProtocol.sha1
      key PrivProtocol.des key (request-IsUsmRequest SecurityLevel.auth_priv) (λ a. refl)
      toy_inverse sealed_request refl sealed_run scoped_size (omega arith)

sha1_used : is_no_auth AuthProtocol.sha1 ≡ false
unfolding is_no_auth
sha1_used = refl

toy_mac : HasMac toy AuthProtocol.sha1 key
unfolding auth_params_size
toy_mac text = (replicate 20 9, (refl, omega arith))

encode_v3_message-done_example :
    (out : Octets) × (encode_v3_message toy 260
        (header SecurityLevel.auth_no_priv)
        usm
        scoped
        AuthProtocol.sha1
        key
        PrivProtocol.des
        key
      ≡ done out)
encode_v3_message-done_example =
    encode_v3_message-done toy 260 (header SecurityLevel.auth_no_priv) usm scoped AuthProtocol.sha1
      key PrivProtocol.des key (request-IsUsmRequest SecurityLevel.auth_no_priv) refl sha1_used
      toy_mac
