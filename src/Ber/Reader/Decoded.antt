-- ===== src/Ber/Reader/Decoded.antt =====
-- `anyValue`, `readVarbind` and `varbindList` of src/BerReader.cpp on any input.
use snmpio.Common.{
  ℕ, ◌^◌, ◌≤◌, Bool, true, false, not, ◌||◌, none, some, Option, ◌≡◌, arith, [], ◌∷◌, All, ◌==◌,
  if◌then◌else◌, length,
}
use snmpio.Common.Int32.{IsInt32}
use snmpio.Common.Bytes.{IsByte}
use snmpio.Error.{Errc, truncated, trailing_data, bad_null, bad_ip_address, unknown_value_tag}
use snmpio.Oid.{Oid, IsSubid, is_encodable}
use snmpio.Value.{Octets, Value}
use snmpio.Value.Representable.{IsRepresentable}
use snmpio.Ber.Tag
use snmpio.Ber.Reader.{
  Reader, Read, has_error, peek_tag, primitive_content, octet_string, return, ◌>>=◌,
}
use snmpio.Ber.Reader.Fields.{
  expect_empty, null_value, oid_result, object_identifier, ip_address, value_of_tag, value_at,
  any_value, integer, unsigned32, unsigned64, exception_of,
}
use snmpio.Ber.Reader.Oid.{decode_oid_content}
use snmpio.Ber.Reader.Outcome.{
  Outcome, Kept-refl, fails-Outcome, if-Outcome, Outcome-trans, Element, checked-Outcome, IsSticky,
  bind-IsSticky,
}
use snmpio.Ber.Reader.Contents.{
  primitive_content-Outcome, primitive_content-IsSticky, return-Outcome, integer-Outcome,
  unsigned32-Outcome, unsigned64-Outcome, Below,
}
use snmpio.Ber.Reader.Subids.{IsVerdict, decode_oid_content-IsVerdict}

abbrev pub IsEncodable : Oid → Type 0
IsEncodable o = (is_encodable o ≡ true) × All IsSubid o

oid_result-Outcome :
    (p : Errc × Option Oid) (r : Reader)
    → IsVerdict p
    → has_error r ≡ false
    → r.pos ≤ r.end
    → Outcome r (λ o _. IsEncodable o) (oid_result p r)
unfolding oid_result
oid_result-Outcome (e, none) r v he h = fails-Outcome e r h
oid_result-Outcome (e, some o) r v he h = return-Outcome IsEncodable o r he h (v.1, v.2)

pub object_identifier-Outcome :
    (r : Reader)
    → has_error r ≡ false
    → r.pos ≤ r.end
    → Outcome r (Element IsEncodable r) (object_identifier r)
unfolding object_identifier
object_identifier-Outcome r he h =
    checked-Outcome (All IsByte) IsEncodable r (primitive_content Tag.object_identifier) _
      (primitive_content-Outcome Tag.object_identifier r he h)
      (λ c r1 e w.
        Outcome-trans (λ o _. IsEncodable o) (λ o _. All IsByte c → IsEncodable o) r1 r1
          (oid_result (decode_oid_content c) r1) (Kept-refl r1 w)
          (oid_result-Outcome (decode_oid_content c) r1 (decode_oid_content-IsVerdict c) e w)
          (λ a r2 k q _. q))

pub object_identifier-IsSticky : IsSticky object_identifier
unfolding object_identifier
object_identifier-IsSticky =
    bind-IsSticky (primitive_content Tag.object_identifier) _
      (primitive_content-IsSticky Tag.object_identifier)

expect_empty-Outcome :
    {A : Type 0} (P : A → Type 0) (e : Errc) (a : A) (c : Octets) (r : Reader)
    → P a
    → has_error r ≡ false
    → r.pos ≤ r.end
    → Outcome r (λ b _. All IsByte c → P b) (expect_empty e a c r)
unfolding expect_empty
expect_empty-Outcome P e a [] r p he h = return-Outcome (λ b. Unit {0} → P b) a r he h (λ _. p)
expect_empty-Outcome P e a (b ∷ bs) r p he h = fails-Outcome e r h

ip_address-Outcome :
    (c : Octets) (r : Reader)
    → has_error r ≡ false
    → r.pos ≤ r.end
    → Outcome r (λ v _. All IsByte c → IsRepresentable v) (ip_address c r)
unfolding ip_address
ip_address-Outcome c r he h =
    if-Outcome r (λ v _. All IsByte c → IsRepresentable v) _ _ (not (length c == 4))
      (λ _. fails-Outcome bad_ip_address r h)
      (λ e.
        return-Outcome (λ v. All IsByte c → IsRepresentable v) (Value.ip_address c) r he h
          (λ hb. ground arith))

-- The value that is made of what was read.
wrapped :
    {A : Type 0} (P : A → Type 0) (m : Read A) (f : A → Value) (r : Reader)
    → Outcome r (Element P r) (m r)
    → ((a : A) → P a → IsRepresentable (f a))
    → Outcome r (Element IsRepresentable r) ((m >>= λ a. return (f a)) r)
wrapped P m f r h g =
    checked-Outcome P IsRepresentable r m (λ a. return (f a)) h
      (λ a r1 e w. return-Outcome (λ v. P a → IsRepresentable v) (f a) r1 e w (g a))

exception-Outcome :
    (t : ℕ) (r : Reader)
    → has_error r ≡ false
    → r.pos ≤ r.end
    → Outcome r
        (Element IsRepresentable r)
        ((primitive_content t >>= expect_empty trailing_data (Value.exception (exception_of t))) r)
exception-Outcome t r he h =
    checked-Outcome (All IsByte) IsRepresentable r (primitive_content t) _
      (primitive_content-Outcome t r he h)
      (λ c r1 e w.
        expect_empty-Outcome IsRepresentable trailing_data (Value.exception (exception_of t)) c r1
          tt e w)

null_value-Outcome :
    (r : Reader)
    → has_error r ≡ false
    → r.pos ≤ r.end
    → Outcome r (Element (λ _. Unit {0}) r) (null_value r)
unfolding null_value
null_value-Outcome r he h =
    checked-Outcome (All IsByte) (λ _. Unit {0}) r (primitive_content Tag.null)
      (expect_empty bad_null tt) (primitive_content-Outcome Tag.null r he h)
      (λ c r1 e w. expect_empty-Outcome (λ _. Unit {0}) bad_null tt c r1 tt e w)

value_of_tag-Outcome :
    (t : ℕ) (r : Reader)
    → has_error r ≡ false
    → r.pos ≤ r.end
    → Outcome r (Element IsRepresentable r) (value_of_tag t r)
unfolding value_of_tag
value_of_tag-Outcome t r he h =
    branch _ _ (t == Tag.null)
      (wrapped (λ _. Unit {0}) null_value (λ u. Value.null) r (null_value-Outcome r he h)
        (λ a p. tt))
      (branch _ _ (t == Tag.integer)
        (wrapped IsInt32 (integer Tag.integer) Value.integer r (integer-Outcome Tag.integer r he h)
          (λ a p. p))
        (branch _ _ (t == Tag.octet_string)
          (wrapped (All IsByte) (octet_string Tag.octet_string) Value.octets r
            (primitive_content-Outcome Tag.octet_string r he h) (λ a p. tt))
          (branch _ _ (t == Tag.object_identifier)
            (wrapped IsEncodable object_identifier Value.oid r (object_identifier-Outcome r he h)
              (λ a p. p))
            (branch _ _ (t == Tag.ip_address)
              (checked-Outcome (All IsByte) IsRepresentable r (primitive_content Tag.ip_address)
                ip_address (primitive_content-Outcome Tag.ip_address r he h) ip_address-Outcome)
              (branch _ _ (t == Tag.counter32)
                (wrapped (Below (2 ^ 32)) (unsigned32 Tag.counter32) Value.counter32 r
                  (unsigned32-Outcome Tag.counter32 r he h) (λ a p. p))
                (branch _ _ (t == Tag.gauge32)
                  (wrapped (Below (2 ^ 32)) (unsigned32 Tag.gauge32) Value.gauge32 r
                    (unsigned32-Outcome Tag.gauge32 r he h) (λ a p. p))
                  (branch _ _ (t == Tag.timeticks)
                    (wrapped (Below (2 ^ 32)) (unsigned32 Tag.timeticks) Value.timeticks r
                      (unsigned32-Outcome Tag.timeticks r he h) (λ a p. p))
                    (branch _ _ (t == Tag.counter64)
                      (wrapped (Below (2 ^ 64)) (unsigned64 Tag.counter64) Value.counter64 r
                        (unsigned64-Outcome Tag.counter64 r he h) (λ a p. p))
                      (branch _ _ (t == Tag.opaque)
                        (wrapped (All IsByte) (octet_string Tag.opaque) Value.opaque r
                          (primitive_content-Outcome Tag.opaque r he h) (λ a p. tt))
                        (branch _ _
                          (t == Tag.no_such_object
                            || t == Tag.no_such_instance
                            || t == Tag.end_of_mib_view)
                          (exception-Outcome t r he h)
                          (fails-Outcome unknown_value_tag r h)))))))))))
  where
    branch :
        (x y : Reader × Option Value) (b : Bool)
        → Outcome r (Element IsRepresentable r) x
        → Outcome r (Element IsRepresentable r) y
        → Outcome r (Element IsRepresentable r) (if b then x else y)
    branch x y true f g = f
    branch x y false f g = g

value_at-Outcome :
    (o : Option ℕ) (r : Reader)
    → has_error r ≡ false
    → r.pos ≤ r.end
    → Outcome r (Element IsRepresentable r) (value_at o r)
value_at-Outcome none r he h = fails-Outcome truncated r h
value_at-Outcome (some t) r he h = value_of_tag-Outcome t r he h

-- From a reader whose cursor is not past its bound and that has no error, whatever lies ahead,
-- anyValue leaves the buffer and the bound as they were and the cursor between where it was and
-- the bound; it returns a Value exactly if no error is recorded, and the Value is in the range of
-- its C++ type, an OID being one that X.690 can encode, if the buffer holds octets.
pub any_value-Outcome :
    (r : Reader)
    → has_error r ≡ false
    → r.pos ≤ r.end
    → Outcome r (Element IsRepresentable r) (any_value r)
unfolding any_value
any_value-Outcome r he h = rw he (value_at-Outcome (peek_tag r) r he h)

pub any_value-IsSticky : IsSticky any_value
unfolding any_value
any_value-IsSticky r he = rw he
