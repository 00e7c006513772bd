-- ===== src/V3Message/Payload.antt =====
-- The last field of an SNMPv3 message of src/V3Message.cpp: the ScopedPDU itself, or its ciphertext.
use snmpio.Common.{
  ℕ, ◌^◌, ◌<◌, true, false, none, some, Option, [], ◌++◌, length, ◌≡◌, refl, ap, ◌∙◌, arith,
  length-append, append_assoc,
}
use snmpio.Value.{Octets}
use snmpio.Ber.Tag
use snmpio.Ber.Writer
use snmpio.Ber.Writer.{Writer}
use snmpio.Ber.Writer.Shape.{ready, element, octet_string-ready, in_scope-ready}
use snmpio.Ber.Reader
use snmpio.Ber.Reader.{Reader}
use snmpio.Ber.Reader.Cursor.{facing, facing_ok, facing_eq, facing_last}
use snmpio.Ber.RoundTrip.Header.{primitive_content-facing}
use snmpio.Ber.RoundTrip.Scope.{in_scope-facing}
use snmpio.Ber.RoundTrip.Values.{length-element}
use snmpio.Ber.RoundTrip.Varbinds.{unless_failed_ok}
use snmpio.Pdu.{Pdu, encode_pdu, decode_pdu}
use snmpio.Pdu.Representable.{IsRepresentablePdu}
use snmpio.Pdu.RoundTrip.{pdu_octets, encode_pdu-ready, decode_pdu-facing}
use snmpio.Usm.{is_encrypted}
use snmpio.V3Message.{
  V3Header, UsmParameters, ScopedPdu, V3Message, no_scoped, encode_scoped_pdu, scoped_fields,
  scoped_body, decode_scoped_pdu,
}
use snmpio.V3Message.Decode.{Step, proceed, with_payload}
use snmpio.V3Message.Layout.{string_octets}

unfoldable pub scoped_content : ScopedPdu → Octets
scoped_content s =
    string_octets s.context_engine_id ++ (string_octets s.context_name ++ pdu_octets s.pdu)

unfoldable pub scoped_octets : ScopedPdu → Octets
scoped_octets s = element Tag.sequence (scoped_content s)

pub encode_scoped_pdu-ready :
    (s : ScopedPdu) (buf : Octets)
    → IsRepresentablePdu s.pdu
    → encode_scoped_pdu s (ready buf) ≡ ready (buf ++ scoped_octets s)
unfolding encode_scoped_pdu scoped_octets scoped_content
encode_scoped_pdu-ready s buf h = in_scope-ready Tag.sequence _ _ buf refl (λ b.
    let e = string_octets s.context_engine_id in
    ap (λ w. encode_pdu s.pdu (Writer.octet_string Tag.octet_string s.context_name w))
      (octet_string-ready Tag.octet_string s.context_engine_id b)
    ∙ ap (encode_pdu s.pdu) (octet_string-ready Tag.octet_string s.context_name (b ++ e))
    ∙ encode_pdu-ready s.pdu ((b ++ e) ++ string_octets s.context_name) h
    ∙ ap ready (simp append_assoc))

body-facing :
    (s : ScopedPdu) (p q : Octets)
    → IsRepresentablePdu s.pdu
    → length (scoped_content s) < 2 ^ 32
    → scoped_body (facing p (scoped_content s) q) ≡ (facing (p ++ scoped_content s) [] q, some s)
unfolding scoped_body scoped_fields scoped_content
body-facing s p q h hn =
    let e = string_octets s.context_engine_id in
    let n = string_octets s.context_name in
    let d = pdu_octets s.pdu in
    let sizes = length-append e (n ++ d) in
    let sizes2 = length-append n d in
    let two : Option Octets → Reader × Option Octets → Reader × Option ScopedPdu =
      λ a m. scoped_fields a m.1 m.0 in
    ap (λ (m : Reader × Option Octets). two m.1 (Reader.octet_string Tag.octet_string m.0))
      (primitive_content-facing Tag.octet_string s.context_engine_id p (n ++ d) q refl refl
        (omega (arith, hn, sizes, length-element Tag.octet_string s.context_engine_id)))
    ∙ ap (two (some s.context_engine_id)) (
        primitive_content-facing Tag.octet_string s.context_name (p ++ e) d q refl refl
          (omega (arith, hn, sizes, sizes2, length-element Tag.octet_string s.context_name)))
    ∙ ap
        (λ (m : Reader × Option Pdu). Reader.and_then m.1 m.0 (λ pdu. Reader.return (record {
          context_engine_id = s.context_engine_id;
          context_name = s.context_name;
          pdu = pdu;
        })))
        (ap decode_pdu (facing_last ((p ++ e) ++ n) d q)
          ∙ decode_pdu-facing s.pdu ((p ++ e) ++ n) [] q h (omega (arith, hn, sizes, sizes2)))
    ∙ ap (λ (r : Reader). (r, some s)) (facing_eq [] q (simp append_assoc))

pub decode_scoped_pdu-facing :
    (s : ScopedPdu) (pre xs post : Octets)
    → IsRepresentablePdu s.pdu
    → length (scoped_octets s) < 2 ^ 32
    → decode_scoped_pdu (facing pre (scoped_octets s ++ xs) post)
      ≡ (facing (pre ++ scoped_octets s) xs post, some s)
unfolding decode_scoped_pdu scoped_octets
decode_scoped_pdu-facing s pre xs post h hn =
    let c = scoped_content s in
    let small : length c < 2 ^ 32 = omega (arith, length-element Tag.sequence c) in
    ap Reader.unless_failed (
      in_scope-facing Tag.sequence scoped_body s c pre xs post refl refl small
        (λ p q. body-facing s p q h small))
    ∙ unless_failed_ok _ s (facing_ok (pre ++ element Tag.sequence c) xs post)

module _ (h : V3Header) (usm : UsmParameters) (at : ℕ) (pre : Octets) where
  abbrev pub plain_message : ScopedPdu → V3Message
  plain_message s = record {
    header = h;
    security = usm;
    scoped = s;
    encrypted_pdu = [];
    auth_params_offset = at;
  }

  abbrev pub sealed_message : Octets → V3Message
  sealed_message e = record {
    header = h;
    security = usm;
    scoped = no_scoped;
    encrypted_pdu = e;
    auth_params_offset = at;
  }

  pub plain_payload :
      (s : ScopedPdu)
      → is_encrypted h.level ≡ false
      → IsRepresentablePdu s.pdu
      → length (scoped_octets s) < 2 ^ 32
      → with_payload h (usm, at) (facing pre (scoped_octets s) [])
        ≡ proceed (facing (pre ++ scoped_octets s) [] []) (plain_message s)
  unfolding with_payload
  plain_payload s hl h2 hn = rw hl (
      ap
        (λ (m : Reader × Option ScopedPdu). elim m.1 as (λ _. Step V3Message) [
          | none ↦ (m.0, (m.0.ec, none))
          | some t ↦ proceed m.0 (plain_message t)
        ])
        (ap decode_scoped_pdu (facing_last pre (scoped_octets s) [])
          ∙ decode_scoped_pdu-facing s pre [] [] h2 hn))

  pub sealed_payload :
      (e : Octets)
      → is_encrypted h.level ≡ true
      → length e < 2 ^ 32
      → with_payload h (usm, at) (facing pre (string_octets e) [])
        ≡ proceed (facing (pre ++ string_octets e) [] []) (sealed_message e)
  unfolding with_payload
  sealed_payload e hl hn = rw hl (
      ap
        (λ (m : Reader × Option Octets). elim m.1 as (λ _. Step V3Message) [
          | none ↦ (m.0, (m.0.ec, none))
          | some t ↦ proceed m.0 (sealed_message t)
        ])
        (ap (Reader.octet_string Tag.octet_string) (facing_last pre (string_octets e) [])
          ∙ primitive_content-facing Tag.octet_string e pre [] [] refl refl hn))
