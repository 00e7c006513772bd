-- ===== src/Pdu/RoundTrip.antt =====
-- A PDU, as `encodePdu` writes it and `decodePdu` reads it (src/Pdu.cpp).
use snmpio.Ber.Reader.Fields
use snmpio.Common.{
  ℕ, ◌^◌, ◌<◌, true, false, some, Option, List, [], ◌∷◌, ◌++◌, length, All, ◌≡◌, refl, ap, ◌∙◌,
  arith, length-append, append_assoc,
}
use snmpio.Common.Int32.{ℤ}
use snmpio.Value.{Octets, Value, Varbind}
use snmpio.Value.Representable.{IsRepresentable, IsRepresentableVarbind}
use snmpio.Ber.Tag
use snmpio.Ber.Writer
use snmpio.Ber.Writer.{Writer}
use snmpio.Ber.Writer.Shape.{ready, element, integer_octets, integer-ready, in_scope-ready}
use snmpio.Ber.Writer.Values.{varbinds_octets, varbind_list-ready, IsWritableVarbind, IsWritable}
use snmpio.Ber.Reader
use snmpio.Ber.Reader.{Reader, Read}
use snmpio.Ber.Reader.Cursor.{facing, facing_ok, facing_eq, facing_last}
use snmpio.Ber.RoundTrip.Numbers.{integer-facing}
use snmpio.Ber.RoundTrip.Scope.{in_scope-facing}
use snmpio.Ber.RoundTrip.Values.{peek_tag-element, length-element}
use snmpio.Ber.RoundTrip.Varbinds.{varbind_list-facing, unless_failed_ok}
use snmpio.Pdu.Representable.{IsRepresentablePdu}
use snmpio.Pdu.{
  Pdu, PduType, pdu_tag, is_pdu_tag, pdu_type_of, put_fields, encode_pdu, all_present, pdu_body,
  pdu_of_tag, pdu_at, decode_pdu,
}

abbrev int_octets : ℤ → Octets
int_octets v = element Tag.integer (integer_octets v)

unfoldable pub fields_octets : Pdu → Octets
fields_octets p =
    int_octets p.request_id
    ++ (int_octets p.error_status
        ++ (int_octets p.error_index ++ element Tag.sequence (varbinds_octets p.varbinds)))

unfoldable pub pdu_octets : Pdu → Octets
pdu_octets p = element (pdu_tag p.type) (fields_octets p)

Value-IsWritable : (v : Value) → IsRepresentable v → IsWritable v
Value-IsWritable (Value.oid o) h = h.0
Value-IsWritable _ h = tt

writable : (vbs : List Varbind) → All IsRepresentableVarbind vbs → All IsWritableVarbind vbs
writable [] h = tt
writable (vb ∷ vbs) (h, hs) = ((h.0, Value-IsWritable vb.val h.2), writable vbs hs)

tag_constructed : (t : PduType) → Tag.is_constructed (pdu_tag t) ≡ true
unfolding pdu_tag
tag_constructed PduType.get = refl
tag_constructed _ = refl

tag_low : (t : PduType) → Tag.is_high_tag_number (pdu_tag t) ≡ false
unfolding pdu_tag
tag_low PduType.get = refl
tag_low _ = refl

tag_of_pdu : (t : PduType) → is_pdu_tag (pdu_tag t) ≡ true
unfolding pdu_tag is_pdu_tag
tag_of_pdu PduType.get = refl
tag_of_pdu _ = refl

type_of_tag : (t : PduType) → pdu_type_of (pdu_tag t) ≡ t
unfolding pdu_tag pdu_type_of
type_of_tag PduType.get = refl
type_of_tag _ = refl

-- The writer appends the PDU's octets.
pub encode_pdu-ready :
    (p : Pdu) (buf : List ℕ)
    → IsRepresentablePdu p
    → encode_pdu p (ready buf) ≡ ready (buf ++ pdu_octets p)
unfolding encode_pdu pdu_octets fields_octets
encode_pdu-ready p buf h =
    in_scope-ready (pdu_tag p.type) (put_fields p) _ buf (tag_constructed p.type) (λ b.
      let i = int_octets p.request_id in
      let s = int_octets p.error_status in
      let x = int_octets p.error_index in
      ap
        (λ w.
          Writer.varbind_list p.varbinds (
            Writer.integer Tag.integer p.error_index (Writer.integer Tag.integer p.error_status w)))
        (integer-ready Tag.integer p.request_id b)
      ∙ ap (λ w. Writer.varbind_list p.varbinds (Writer.integer Tag.integer p.error_index w))
          (integer-ready Tag.integer p.error_status (b ++ i))
      ∙ ap (Writer.varbind_list p.varbinds)
          (integer-ready Tag.integer p.error_index ((b ++ i) ++ s))
      ∙ varbind_list-ready p.varbinds (((b ++ i) ++ s) ++ x) (writable p.varbinds h.varbinds)
      ∙ ap ready (simp append_assoc))

module _ (pdu : Pdu) (p q : List ℕ) (h : IsRepresentablePdu pdu) where
  abbrev read_varbinds : PduType → Option ℤ → Option ℤ → Reader × Option ℤ → Reader × Option Pdu
  read_varbinds type i s m = let n = Fields.varbind_list m.0 in (n.0, all_present type i s m.1 n.1)

  abbrev read_index : PduType → Option ℤ → Reader × Option ℤ → Reader × Option Pdu
  read_index type i m = read_varbinds type i m.1 (Fields.integer Tag.integer m.0)

  abbrev read_status : PduType → Reader × Option ℤ → Reader × Option Pdu
  read_status type m = read_index type m.1 (Fields.integer Tag.integer m.0)

  body-facing :
      length (fields_octets pdu) < 2 ^ 32
      → pdu_body pdu.type (facing p (fields_octets pdu) q)
        ≡ (facing (p ++ fields_octets pdu) [] q, some pdu)
  unfolding pdu_body fields_octets all_present
  body-facing hn =
      let i = int_octets pdu.request_id in
      let s = int_octets pdu.error_status in
      let x = int_octets pdu.error_index in
      let vs = element Tag.sequence (varbinds_octets pdu.varbinds) in
      ap (read_status pdu.type)
        (integer-facing Tag.integer pdu.request_id p (s ++ (x ++ vs)) q refl refl h.request_id)
      ∙ ap (read_index pdu.type (some pdu.request_id)) (
          integer-facing Tag.integer pdu.error_status (p ++ i) (x ++ vs) q refl refl h.error_status)
      ∙ ap (read_varbinds pdu.type (some pdu.request_id) (some pdu.error_status))
          (integer-facing Tag.integer pdu.error_index ((p ++ i) ++ s) vs q refl refl h.error_index)
      ∙ ap (read_varbinds pdu.type (some pdu.request_id) (some pdu.error_status))
          (ap (λ (r : Reader). (r, some pdu.error_index)) (facing_last (((p ++ i) ++ s) ++ x) vs q))
      ∙ ap
          (λ (m : Reader × Option (List Varbind)). (
            m.0,
            all_present pdu.type (some pdu.request_id) (some pdu.error_status)
                (some pdu.error_index) m.1,
          ))
          (varbind_list-facing pdu.varbinds (((p ++ i) ++ s) ++ x) [] q h.varbinds
            (omega (arith, size)))
      ∙ ap (λ (r : Reader). (r, some pdu)) (facing_eq [] q (simp append_assoc))
    where
      size : length (varbinds_octets pdu.varbinds) < length (fields_octets pdu)
      size = omega (
        arith,
        length-element Tag.sequence (varbinds_octets pdu.varbinds),
        length-append (int_octets pdu.request_id) (
            int_octets pdu.error_status
            ++ (int_octets pdu.error_index ++ element Tag.sequence (varbinds_octets pdu.varbinds))),
        length-append (int_octets pdu.error_status)
            (int_octets pdu.error_index ++ element Tag.sequence (varbinds_octets pdu.varbinds)),
        length-append (int_octets pdu.error_index)
            (element Tag.sequence (varbinds_octets pdu.varbinds)),
      )

-- decodePdu reads a representable PDU back from its encoding below 2^32 octets, wherever that
-- stands in the buffer, and stops behind it.
pub decode_pdu-facing :
    (pdu : Pdu) (pre xs post : List ℕ)
    → IsRepresentablePdu pdu
    → length (pdu_octets pdu) < 2 ^ 32
    → decode_pdu (facing pre (pdu_octets pdu ++ xs) post)
      ≡ (facing (pre ++ pdu_octets pdu) xs post, some pdu)
unfolding decode_pdu pdu_octets pdu_at pdu_of_tag
decode_pdu-facing pdu pre xs post h hn =
    let t = pdu_tag pdu.type in
    let c = fields_octets pdu in
    let r = facing pre (element t c ++ xs) post in
    rw (facing_ok pre (element t c ++ xs) post) (
      ap (λ (o : Option ℕ). pdu_at o r) (peek_tag-element t c pre xs post)
      ∙ rw (tag_of_pdu pdu.type, type_of_tag pdu.type)
          (ap Reader.unless_failed (
              in_scope-facing t (pdu_body pdu.type) pdu c pre xs post (tag_constructed pdu.type)
                (tag_low pdu.type) (omega (arith, length-element t c))
                (λ p q. body-facing pdu p q h (omega (arith, length-element t c))))
            ∙ unless_failed_ok _ pdu (facing_ok (pre ++ element t c) xs post)))
