-- ===== src/Pdu/Message.antt =====
-- The SNMPv2c message: `encodeV2cMessage`, `decodeV2cMessage` and `messageVersion` (src/Pdu.cpp).
use snmpio.Common.{
  ℕ, ◌+◌, ◌^◌, ◌<◌, none, some, Option, List, [], ◌++◌, length, ◌≡◌, refl, ap, ◌∙◌, arith,
  length-append, append_assoc,
}
use snmpio.Common.Int32.{ℤ}
use snmpio.Error.{Errc}
use snmpio.Value.{Octets}
use snmpio.Ber.Tag
use snmpio.Ber.Writer
use snmpio.Ber.Writer.{Writer}
use snmpio.Ber.Writer.Shape.{
  ready, element, integer_octets, integer-ready, octet_string-ready, in_scope-ready,
}
use snmpio.Ber.Reader
use snmpio.Ber.Reader.{Reader, Read, Scope}
use snmpio.Ber.Reader.Cursor.{facing, facing_eq, facing_last, over-facing}
use snmpio.Ber.RoundTrip.Header.{primitive_content-facing}
use snmpio.Ber.RoundTrip.Numbers.{integer-facing}
use snmpio.Ber.RoundTrip.Scope.{enter-facing, leave-facing, front, scope_on}
use snmpio.Ber.RoundTrip.Values.{length-element}
use snmpio.Pdu.Representable.{IsRepresentablePdu}
use snmpio.Pdu.RoundTrip.{pdu_octets, encode_pdu-ready, decode_pdu-facing}
use snmpio.Pdu.{
  Pdu, V2cMessage, version_v2c, put_message, encode_pdu, taken, encode_v2c_message, decode_pdu,
  v2c_pdu, v2c_fields, v2c_body, finished, decode_v2c_message,
}

unfoldable pub message_content : Octets → Pdu → Octets
message_content community pdu =
    element Tag.integer (integer_octets version_v2c)
    ++ (element Tag.octet_string community ++ pdu_octets pdu)

-- An encoded message is one SEQUENCE, and there is no error.
pub encode_v2c_message_lem :
    (community : Octets) (pdu : Pdu)
    → IsRepresentablePdu pdu
    → encode_v2c_message community pdu
      ≡ (none, element Tag.sequence (message_content community pdu))
unfolding encode_v2c_message message_content Writer.new
encode_v2c_message_lem community pdu h = ap taken (
    in_scope-ready Tag.sequence (put_message community pdu) _ [] refl (λ b.
      let v = element Tag.integer (integer_octets version_v2c) in
      ap (λ w. encode_pdu pdu (Writer.octet_string Tag.octet_string community w))
        (integer-ready Tag.integer version_v2c b)
      ∙ ap (encode_pdu pdu) (octet_string-ready Tag.octet_string community (b ++ v))
      ∙ encode_pdu-ready pdu ((b ++ v) ++ element Tag.octet_string community) h
      ∙ ap ready (simp append_assoc)))

module _ (community : Octets) (pdu : Pdu) (p q : List ℕ) (h : IsRepresentablePdu pdu) where
  abbrev read_pdu : Option ℤ → Reader × Option Octets → Reader × (Option Errc × Option V2cMessage)
  read_pdu version m = v2c_fields version m.1 m.0

  abbrev read_community : Reader × Option ℤ → Reader × (Option Errc × Option V2cMessage)
  read_community m = read_pdu m.1 (Reader.octet_string Tag.octet_string m.0)

  abbrev message : V2cMessage
  message = record { community = community; pdu = pdu }

  body-facing :
      length (message_content community pdu) < 2 ^ 32
      → v2c_body (facing p (message_content community pdu) q)
        ≡ (facing (p ++ message_content community pdu) [] q, (none, some message))
  unfolding v2c_body v2c_fields v2c_pdu message_content
  body-facing hn =
      let v = element Tag.integer (integer_octets version_v2c) in
      let c = element Tag.octet_string community in
      let f = (p ++ v) ++ c in
      ap read_community
        (integer-facing Tag.integer version_v2c p (c ++ pdu_octets pdu) q refl refl (omega arith))
      ∙ ap (read_pdu (some version_v2c)) (
          primitive_content-facing Tag.octet_string community (p ++ v) (pdu_octets pdu) q refl refl
            (omega (arith, size)))
      ∙ ap (v2c_pdu community) (
          ap decode_pdu (facing_last f (pdu_octets pdu) q)
          ∙ decode_pdu-facing pdu f [] q h (omega (arith, size)))
      ∙ ap (λ (r : Reader). (r, (none, some message))) (facing_eq [] q (simp append_assoc))
    where
      size :
          length community + length (pdu_octets pdu)
          < length (
              element Tag.integer (integer_octets version_v2c)
              ++ (element Tag.octet_string community ++ pdu_octets pdu))
      size = omega (
        arith,
        length-element Tag.octet_string community,
        length-append (element Tag.integer (integer_octets version_v2c))
            (element Tag.octet_string community ++ pdu_octets pdu),
        length-append (element Tag.octet_string community) (pdu_octets pdu),
      )

-- A reader that has come to its bound with no error is done.
finished-facing :
    (input : List ℕ) (m : V2cMessage)
    → finished (facing input [] []) (none, some m) ≡ (none, some m)
unfolding finished Reader.finish facing
finished-facing input m = ground arith

decode_element :
    (community : Octets) (pdu : Pdu)
    → IsRepresentablePdu pdu
    → length (message_content community pdu) < 2 ^ 32
    → decode_v2c_message (element Tag.sequence (message_content community pdu))
      ≡ (none, some (record { community = community; pdu = pdu }))
unfolding decode_v2c_message
decode_element community pdu h hn =
    ap (λ (r : Reader). inside (Reader.enter Tag.sequence r))
      (over-facing (element Tag.sequence c) ∙ facing_last [] (element Tag.sequence c) [])
    ∙ ap inside (enter-facing Tag.sequence c [] [] [] refl refl hn)
    ∙ ap (closed (scope_on Tag.sequence c [] []))
        (body-facing community pdu (front Tag.sequence c []) [] h hn)
    ∙ ap (λ (r : Reader). finished r (none, some (record { community = community; pdu = pdu })))
        (leave-facing Tag.sequence c [] [] [])
    ∙ finished-facing _ _
  where
    c : Octets
    c = message_content community pdu

    closed : Scope → Reader × (Option Errc × Option V2cMessage) → Option Errc × Option V2cMessage
    closed s m = finished (Reader.leave s m.0) m.1

    inside : Reader × Scope → Option Errc × Option V2cMessage
    inside m = closed m.1 (v2c_body m.0)

-- For every community and every PDU that the C++ types hold, with OIDs that X.690 can encode,
-- encodeV2cMessage reports no error, and if its datagram is shorter than 2^32 octets
-- decodeV2cMessage reads the same community and PDU back with no error.
pub decode_v2c_message-encode_v2c_message :
    (community : Octets) (pdu : Pdu)
    → IsRepresentablePdu pdu
    → length (encode_v2c_message community pdu).1 < 2 ^ 32
    → ((encode_v2c_message community pdu).0 ≡ none)
      × (decode_v2c_message (encode_v2c_message community pdu).1
          ≡ (none, some (record { community = community; pdu = pdu })))
decode_v2c_message-encode_v2c_message community pdu h hn =
    let e = encode_v2c_message_lem community pdu h in
    let datagram = ap (λ (m : Option Errc × List ℕ). m.1) e in
    (
      ap (λ (m : Option Errc × List ℕ). m.0) e,
      ap decode_v2c_message datagram
          ∙ decode_element community pdu h (
              omega (
                arith,
                length-element Tag.sequence (message_content community pdu),
                ap (λ (l : List ℕ). length l) datagram,
              )),
    )
