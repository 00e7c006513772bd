-- ===== src/Ber/Writer/Values.antt =====
-- What the writer of src/BerWriter.cpp appends for a Value, a Varbind and a VarBindList.
use snmpio.Common.{ℕ, true, List, [], ◌∷◌, ◌++◌, ◌≡◌, refl, ap, ◌∙◌, append_assoc, append-nil, All}
use snmpio.Oid.{is_encodable}
use snmpio.Value.{Octets, Value, Varbind}
use snmpio.Ber.Tag
use snmpio.Ber.Writer.{write_value, write_varbind, write_each, varbind_list, exception_tag}
use snmpio.Ber.Writer.Shape.{
  ready, element, integer_octets, unsigned_octets, oid_octets, tlv-ready, octet_string-ready,
  integer-ready, unsigned64-ready, null_value-ready, object_identifier-ready, in_scope-ready,
}

unfoldable pub value_octets : Value → Octets
value_octets Value.null = element Tag.null []
value_octets (Value.integer v) = element Tag.integer (integer_octets v)
value_octets (Value.octets v) = element Tag.octet_string v
value_octets (Value.oid o) = element Tag.object_identifier (oid_octets o)
value_octets (Value.ip_address v) = element Tag.ip_address v
value_octets (Value.counter32 v) = element Tag.counter32 (unsigned_octets v)
value_octets (Value.gauge32 v) = element Tag.gauge32 (unsigned_octets v)
value_octets (Value.timeticks v) = element Tag.timeticks (unsigned_octets v)
value_octets (Value.opaque v) = element Tag.opaque v
value_octets (Value.counter64 v) = element Tag.counter64 (unsigned_octets v)
value_octets (Value.exception e) = element (exception_tag e) []

-- The one fault that the writer itself can find in a Value.
abbrev pub IsWritable : Value → Type 0
IsWritable (Value.oid o) = is_encodable o ≡ true
IsWritable _ = Unit {0}

pub write_value-ready :
    (v : Value) (buf : List ℕ)
    → IsWritable v
    → write_value v (ready buf) ≡ ready (buf ++ value_octets v)
unfolding write_value value_octets
write_value-ready Value.null buf h = null_value-ready buf
write_value-ready (Value.integer v) buf h = integer-ready Tag.integer v buf
write_value-ready (Value.octets v) buf h = octet_string-ready Tag.octet_string v buf
write_value-ready (Value.oid o) buf h = object_identifier-ready o buf h
write_value-ready (Value.ip_address v) buf h = octet_string-ready Tag.ip_address v buf
write_value-ready (Value.counter32 v) buf h = unsigned64-ready Tag.counter32 v buf
write_value-ready (Value.gauge32 v) buf h = unsigned64-ready Tag.gauge32 v buf
write_value-ready (Value.timeticks v) buf h = unsigned64-ready Tag.timeticks v buf
write_value-ready (Value.opaque v) buf h = octet_string-ready Tag.opaque v buf
write_value-ready (Value.counter64 v) buf h = unsigned64-ready Tag.counter64 v buf
write_value-ready (Value.exception e) buf h = tlv-ready (exception_tag e) [] buf

abbrev pub IsWritableVarbind : Varbind → Type 0
IsWritableVarbind vb = (is_encodable vb.name ≡ true) × IsWritable vb.val

unfoldable pub varbind_octets : Varbind → Octets
varbind_octets vb =
    element Tag.sequence (element Tag.object_identifier (oid_octets vb.name) ++ value_octets vb.val)

unfoldable pub varbinds_octets : List Varbind → Octets
varbinds_octets [] = []
varbinds_octets (vb ∷ vbs) = varbind_octets vb ++ varbinds_octets vbs

pub write_varbind-ready :
    (vb : Varbind) (buf : List ℕ)
    → IsWritableVarbind vb
    → write_varbind vb (ready buf) ≡ ready (buf ++ varbind_octets vb)
unfolding write_varbind varbind_octets
write_varbind-ready vb buf (hn, hv) = in_scope-ready Tag.sequence _ _ buf refl λ b.
    ap (write_value vb.val) (object_identifier-ready vb.name b hn)
    ∙ write_value-ready vb.val _ hv
    ∙ ap ready (append_assoc b _ (value_octets vb.val))

write_each-ready :
    (vbs : List Varbind) (buf : List ℕ)
    → All IsWritableVarbind vbs
    → write_each vbs (ready buf) ≡ ready (buf ++ varbinds_octets vbs)
unfolding varbinds_octets
write_each-ready [] buf h = rw append-nil
write_each-ready (vb ∷ vbs) buf h =
    ap (write_each vbs) (write_varbind-ready vb buf h.0)
    ∙ write_each-ready vbs _ h.1
    ∙ ap ready (append_assoc buf (varbind_octets vb) (varbinds_octets vbs))

pub varbind_list-ready :
    (vbs : List Varbind) (buf : List ℕ)
    → All IsWritableVarbind vbs
    → varbind_list vbs (ready buf) ≡ ready (buf ++ element Tag.sequence (varbinds_octets vbs))
unfolding varbind_list
varbind_list-ready vbs buf h =
    in_scope-ready Tag.sequence _ _ buf refl (λ b. write_each-ready vbs b h)
