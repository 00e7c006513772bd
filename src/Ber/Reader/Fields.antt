-- ===== src/Ber/Reader/Fields.antt =====
-- src/BerReader.cpp: the reads of values, by their tags, of varbinds and of lists of varbinds.
use snmpio.Common.{
  ℕ, zero, suc, ◌-◌, ◌%◌, ◌^◌, not, ◌||◌, Option, none, some, List, [], ◌∷◌, ◌++◌, ltb, ◌==◌,
  if◌then◌else◌, length,
}
use snmpio.Common.Int32.{ℤ, from_u32}
use snmpio.Common.Bytes.{top_bit, fold_octets}
use snmpio.Error.{
  Errc, truncated, trailing_data, empty_content, integer_too_large, bad_ip_address, bad_null,
  unknown_value_tag,
}
use snmpio.Value.{Octets, Value, Varbind, ValueException}
use snmpio.Ber.Tag
use snmpio.Ber.Writer.{strip_sign, sign_pad}
use snmpio.Ber.Reader.Oid.{decode_oid_content}
use snmpio.Ber.Reader.{
  Read, ◌>>=◌, return, has_error, fails, at_end, peek_tag, in_scope, unless_failed,
  primitive_content, octet_string,
}

-- The padding is dropped, and the rest must fit an Integer32.
unfoldable pub integer_content : Octets → Read ℤ
integer_content [] r = fails empty_content r
integer_content (b ∷ bs) r =
    let negative = top_bit b in
    let kept = strip_sign (sign_pad negative) negative (b ∷ bs) in
    if ltb 4 (length kept)
    then fails integer_too_large r
    else return (from_u32 (fold_octets 32 (if negative then 2 ^ 32 - 1 else 0) kept)) r

unfoldable pub integer : ℕ → Read ℤ
integer expected = primitive_content expected >>= integer_content

-- What is left once the leading zero octets are passed.
unfoldable pub drop_zeros : Octets → Octets
drop_zeros [] = []
drop_zeros (b ∷ bs) = let rest = drop_zeros bs in if b == 0 then rest else b ∷ bs

unfoldable pub significant : ℕ → Octets → Read ℕ
significant max_significant [] r = fails empty_content r
significant max_significant (b ∷ bs) r =
    let kept = drop_zeros (b ∷ bs) in
    if ltb max_significant (length kept)
    then fails integer_too_large r
    else return (fold_octets 64 0 kept) r

unfoldable pub unsigned_content : ℕ → ℕ → Read ℕ
unsigned_content expected max_significant =
    primitive_content expected >>= significant max_significant

-- `static_cast<std::uint32_t>`
unfoldable pub unsigned32 : ℕ → Read ℕ
unsigned32 expected = unsigned_content expected 4 >>= λ v. return (v % 2 ^ 32)

abbrev pub unsigned64 : ℕ → Read ℕ
unsigned64 expected = unsigned_content expected 8

-- A read that succeeds or fails with no value is a read of the unit.
unfoldable pub expect_empty : {A : Type 0} → Errc → A → Octets → Read A
expect_empty e a [] r = return a r
expect_empty e a (b ∷ bs) r = fails e r

unfoldable pub null_value : Read (Unit {0})
null_value = primitive_content Tag.null >>= expect_empty bad_null tt

unfoldable pub oid_result : Errc × Option (List ℕ) → Read (List ℕ)
oid_result (e, none) r = fails e r
oid_result (e, some o) r = return o r

unfoldable pub object_identifier : Read (List ℕ)
object_identifier =
    primitive_content Tag.object_identifier >>= λ content. oid_result (decode_oid_content content)

unfoldable pub ip_address : Octets → Read Value
ip_address content r =
    if not (length content == 4)
    then fails bad_ip_address r
    else return (Value.ip_address content) r

abbrev pub exception_of : ℕ → ValueException
exception_of t =
    if t == Tag.no_such_object
    then ValueException.no_such_object
    else if t == Tag.no_such_instance
    then ValueException.no_such_instance
    else ValueException.end_of_mib_view

-- The `switch` of `anyValue`.
unfoldable pub value_of_tag : ℕ → Read Value
value_of_tag t r =
    if t == Tag.null
    then (null_value >>= λ u. return Value.null) r
    else if t == Tag.integer
    then (integer Tag.integer >>= λ v. return (Value.integer v)) r
    else if t == Tag.octet_string
    then (octet_string Tag.octet_string >>= λ v. return (Value.octets v)) r
    else if t == Tag.object_identifier
    then (object_identifier >>= λ v. return (Value.oid v)) r
    else if t == Tag.ip_address
    then (primitive_content Tag.ip_address >>= ip_address) r
    else if t == Tag.counter32
    then (unsigned32 Tag.counter32 >>= λ v. return (Value.counter32 v)) r
    else if t == Tag.gauge32
    then (unsigned32 Tag.gauge32 >>= λ v. return (Value.gauge32 v)) r
    else if t == Tag.timeticks
    then (unsigned32 Tag.timeticks >>= λ v. return (Value.timeticks v)) r
    else if t == Tag.counter64
    then (unsigned64 Tag.counter64 >>= λ v. return (Value.counter64 v)) r
    else if t == Tag.opaque
    then (octet_string Tag.opaque >>= λ v. return (Value.opaque v)) r
    else if t == Tag.no_such_object || t == Tag.no_such_instance || t == Tag.end_of_mib_view
    then (primitive_content t >>= expect_empty trailing_data (Value.exception (exception_of t))) r
    else fails unknown_value_tag r

abbrev pub value_at : Option ℕ → Read Value
value_at none r = fails truncated r
value_at (some t) r = value_of_tag t r

unfoldable pub any_value : Read Value
any_value r = if has_error r then (r, none) else value_at (peek_tag r) r

abbrev pub varbind_body : Read Varbind
varbind_body = do
  name ← object_identifier
  val ← any_value
  return (record { name = name; val = val })

unfoldable pub read_varbind : Read Varbind
read_varbind r =
    if has_error r then (r, none) else unless_failed (in_scope Tag.sequence varbind_body r)

-- `while (ok() && !atEnd())`. Each varbind takes octets, so a round for each octet is enough
-- (Loop); a loop that used up its rounds would return nothing with no error recorded.
unfoldable pub varbinds_loop : ℕ → List Varbind → Read (List Varbind)
varbinds_loop zero out r = (r, none)
varbinds_loop (suc f) out r =
    let more = read_varbind >>= λ vb. varbinds_loop f (out ++ vb ∷ []) in
    if has_error r || at_end r then return out r else more r

unfoldable pub varbind_list : Read (List Varbind)
varbind_list r =
    if has_error r
    then (r, none)
    else unless_failed (in_scope Tag.sequence (λ r1. varbinds_loop (suc (length r1.buf)) [] r1) r)
