-- ===== src/Ber/RoundTrip/Values.antt =====
-- `anyValue` on what `write` wrote, for each of the eleven alternatives of a Value.
use snmpio.Common.{
  ℕ, ◌^◌, ◌<◌, true, some, Option, List, [], ◌++◌, ◌==◌, length, ◌≡◌, refl, ap, ◌∙◌, arith,
  length-append,
}
use snmpio.Error.{trailing_data, bad_null}
use snmpio.Value.{Octets, Value, ValueException}
use snmpio.Value.Representable.{IsRepresentable}
use snmpio.Ber.Tag
use snmpio.Ber.Writer.{exception_tag}
use snmpio.Ber.Writer.Shape.{element, length_bytes}
use snmpio.Ber.Writer.Values.{value_octets}
use snmpio.Ber.Reader.{Reader, Read, and_then, return, peek_tag, primitive_content, octet_string}
use snmpio.Ber.Reader.Fields.{
  any_value, value_of_tag, value_at, expect_empty, null_value, ip_address, integer,
  object_identifier, unsigned32, unsigned64,
}
use snmpio.Ber.Reader.Cursor.{facing, facing_ok, peek_tag-facing}
use snmpio.Ber.RoundTrip.Header.{primitive_content-facing}
use snmpio.Ber.RoundTrip.Numbers.{integer-facing, unsigned32-facing, unsigned64-facing}
use snmpio.Ber.RoundTrip.OidContent.{object_identifier-facing}

pub peek_tag-element :
    (t : ℕ) (c pre xs post : List ℕ) → peek_tag (facing pre (element t c ++ xs) post) ≡ some t
unfolding element
peek_tag-element t c pre xs post = peek_tag-facing pre t _ post

any_value_step :
    (t : ℕ) (c pre xs post : List ℕ)
    → let r = facing pre (element t c ++ xs) post in any_value r ≡ value_of_tag t r
unfolding any_value
any_value_step t c pre xs post =
    let r = facing pre (element t c ++ xs) post in
    rw (facing_ok pre (element t c ++ xs) post)
      (ap (λ (o : Option ℕ). value_at o r) (peek_tag-element t c pre xs post))

pub length-element : (t : ℕ) (c : List ℕ) → length c < length (element t c)
unfolding element
length-element t c = omega (arith, length-append (length_bytes (length c)) c)

-- A read of one element, with the rest of `anyValue` behind it.
then_value :
    {A : Type 0} (t : ℕ) (c : List ℕ) (m : Read A) (k : A → Read Value) (a : A) (v : Value)
    (pre xs post : List ℕ)
    → ((r : Reader) → value_of_tag t r ≡ and_then (m r).1 (m r).0 k)
    → m (facing pre (element t c ++ xs) post) ≡ (facing (pre ++ element t c) xs post, some a)
    → ((r : Reader) → k a r ≡ (r, some v))
    → any_value (facing pre (element t c ++ xs) post)
      ≡ (facing (pre ++ element t c) xs post, some v)
then_value {A} t c m k a v pre xs post hm hr hk =
    any_value_step t c pre xs post
    ∙ hm _
    ∙ ap (λ (p : Reader × Option A). and_then p.1 p.0 k) hr
    ∙ hk _

exception_value :
    (e : ValueException) (pre xs post : List ℕ)
    → let t = exception_tag e in
      any_value (facing pre (element t [] ++ xs) post)
      ≡ (facing (pre ++ element t []) xs post, some (Value.exception e))
unfolding value_of_tag expect_empty
exception_value ValueException.no_such_object pre xs post =
    then_value 0x80 [] (primitive_content 0x80)
      (expect_empty trailing_data (Value.exception ValueException.no_such_object)) [] _ pre xs post
      (λ r. refl) (primitive_content-facing 0x80 [] pre xs post refl refl (omega arith)) (λ r. refl)
exception_value ValueException.no_such_instance pre xs post =
    then_value 0x81 [] (primitive_content 0x81)
      (expect_empty trailing_data (Value.exception ValueException.no_such_instance)) [] _ pre xs
      post (λ r. refl) (primitive_content-facing 0x81 [] pre xs post refl refl (omega arith))
      (λ r. refl)
exception_value ValueException.end_of_mib_view pre xs post =
    then_value 0x82 [] (primitive_content 0x82)
      (expect_empty trailing_data (Value.exception ValueException.end_of_mib_view)) [] _ pre xs post
      (λ r. refl) (primitive_content-facing 0x82 [] pre xs post refl refl (omega arith)) (λ r. refl)

ip_address_lem :
    (v : Octets) (r : Reader) → length v ≡ 4 → ip_address v r ≡ (r, some (Value.ip_address v))
unfolding ip_address
ip_address_lem v r h = let four : (length v == 4) ≡ true = ground arith in rw four

-- anyValue reads each of the eleven alternatives of a representable Value back from its encoding
-- below 2^32 octets, wherever that stands, and stops behind it.
pub any_value-facing :
    (v : Value) (pre xs post : List ℕ)
    → IsRepresentable v
    → length (value_octets v) < 2 ^ 32
    → any_value (facing pre (value_octets v ++ xs) post)
      ≡ (facing (pre ++ value_octets v) xs post, some v)
unfolding value_of_tag value_octets expect_empty null_value
any_value-facing Value.null pre xs post h n =
    then_value 0x05 [] null_value (λ u. return Value.null) tt _ pre xs post (λ r. refl)
      (ap (λ (p : Reader × Option Octets). and_then p.1 p.0 (expect_empty bad_null tt))
        (primitive_content-facing 0x05 [] pre xs post refl refl (omega arith)))
      (λ r. refl)
any_value-facing (Value.integer v) pre xs post h n =
    then_value 0x02 _ (integer Tag.integer) (λ v. return (Value.integer v)) v _ pre xs post
      (λ r. refl) (integer-facing 0x02 v pre xs post refl refl h) (λ r. refl)
any_value-facing (Value.octets v) pre xs post h n =
    then_value 0x04 v (octet_string Tag.octet_string) (λ v. return (Value.octets v)) v _ pre xs post
      (λ r. refl)
      (primitive_content-facing 0x04 v pre xs post refl refl (omega (arith, length-element 0x04 v)))
      (λ r. refl)
any_value-facing (Value.oid o) pre xs post h n =
    then_value 0x06 _ (object_identifier) (λ v. return (Value.oid v)) o _ pre xs post (λ r. refl)
      (object_identifier-facing o pre xs post h.0 h.1) (λ r. refl)
any_value-facing (Value.ip_address v) pre xs post h n =
    then_value 0x40 v (primitive_content Tag.ip_address) (ip_address) v _ pre xs post (λ r. refl)
      (primitive_content-facing 0x40 v pre xs post refl refl (omega arith))
      (λ r. ip_address_lem v r h)
any_value-facing (Value.counter32 v) pre xs post h n =
    then_value 0x41 _ (unsigned32 Tag.counter32) (λ v. return (Value.counter32 v)) v _ pre xs post
      (λ r. refl) (unsigned32-facing 0x41 v pre xs post refl refl h) (λ r. refl)
any_value-facing (Value.gauge32 v) pre xs post h n =
    then_value 0x42 _ (unsigned32 Tag.gauge32) (λ v. return (Value.gauge32 v)) v _ pre xs post
      (λ r. refl) (unsigned32-facing 0x42 v pre xs post refl refl h) (λ r. refl)
any_value-facing (Value.timeticks v) pre xs post h n =
    then_value 0x43 _ (unsigned32 Tag.timeticks) (λ v. return (Value.timeticks v)) v _ pre xs post
      (λ r. refl) (unsigned32-facing 0x43 v pre xs post refl refl h) (λ r. refl)
any_value-facing (Value.opaque v) pre xs post h n =
    then_value 0x44 v (octet_string Tag.opaque) (λ v. return (Value.opaque v)) v _ pre xs post
      (λ r. refl)
      (primitive_content-facing 0x44 v pre xs post refl refl (omega (arith, length-element 0x44 v)))
      (λ r. refl)
any_value-facing (Value.counter64 v) pre xs post h n =
    then_value 0x46 _ (unsigned64 Tag.counter64) (λ v. return (Value.counter64 v)) v _ pre xs post
      (λ r. refl) (unsigned64-facing 0x46 v pre xs post refl refl h) (λ r. refl)
any_value-facing (Value.exception e) pre xs post h n = exception_value e pre xs post
