-- ===== src/Tests/RoundTrips.antt =====
-- The reader at concrete encodings, each between an octet that was read and one that lies behind.
use snmpio.Common.{ℕ, ◌<◌, ◌^◌, All, true, some, List, [], ◌∷◌, ◌++◌, ◌≡◌, refl, arith, length}
use snmpio.Common.Int32.{to_u32}
use snmpio.Common.Bytes.{bytes_be}
use snmpio.Oid.{Oid, IsSubid, is_encodable}
use snmpio.Value.{Value, Varbind}
use snmpio.Ber.Writer
use snmpio.Ber.Writer.Shape.{element, length_bytes}
use snmpio.Ber.Writer.Values.{value_octets, varbind_octets, varbinds_octets}
use snmpio.Ber.Reader.Fields.{any_value, varbind_list}
use snmpio.Ber.Reader.Cursor.{facing}
use snmpio.Ber.RoundTrip.Values.{any_value-facing}
use snmpio.Ber.RoundTrip.Varbinds.{varbind_list-facing}
use snmpio.Value.Representable.{IsRepresentableVarbind}
use snmpio.Pdu.{decode_pdu}
use snmpio.Pdu.RoundTrip.{pdu_octets, fields_octets, decode_pdu-facing}
use snmpio.Tests.Codec.{bulk, bulk-IsRepresentablePdu}

abbrev before : List ℕ
before = 9 ∷ []

abbrev behind : List ℕ
behind = 5 ∷ 0 ∷ []

abbrev sys_uptime : Oid
sys_uptime = 1 ∷ 3 ∷ 6 ∷ 1 ∷ 300 ∷ []

sys_uptime_encodable : is_encodable sys_uptime ≡ true
unfolding is_encodable
sys_uptime_encodable = refl

sys_uptime_subids : All IsSubid sys_uptime
sys_uptime_subids = (omega arith, (omega arith, (omega arith, (omega arith, (omega arith, tt)))))

abbrev ticks : Value
ticks = Value.timeticks 70000

ticks_size : length (value_octets ticks) < 2 ^ 32
unfolding value_octets element length_bytes Writer.strip_sign bytes_be
ticks_size = omega arith

any_value-facing_example :
    any_value (facing before (value_octets ticks ++ behind) before)
    ≡ (facing (before ++ value_octets ticks) behind before, some ticks)
any_value-facing_example = any_value-facing ticks before behind before (omega arith) ticks_size

abbrev uptime : Varbind
uptime = record { name = sys_uptime; val = ticks }

uptime_representable : IsRepresentableVarbind uptime
uptime_representable = (sys_uptime_encodable, sys_uptime_subids, omega arith)

varbinds_size : length (varbinds_octets (uptime ∷ uptime ∷ [])) < 2 ^ 32
unfolding varbinds_octets varbind_octets value_octets element length_bytes Writer.strip_sign
    bytes_be Writer.groups Writer.subid_octets Writer.subid_loop Writer.length_octets
varbinds_size = omega arith

varbind_list-facing_example :
    varbind_list
      (facing before (element 0x30 (varbinds_octets (uptime ∷ uptime ∷ [])) ++ behind) before)
    ≡ (
      facing (before ++ element 0x30 (varbinds_octets (uptime ∷ uptime ∷ []))) behind before,
      some (uptime ∷ uptime ∷ []),
    )
varbind_list-facing_example =
    varbind_list-facing (uptime ∷ uptime ∷ []) before behind before
      (uptime_representable, (uptime_representable, tt)) varbinds_size

bulk_pdu_size : length (pdu_octets bulk) < 2 ^ 32
unfolding pdu_octets fields_octets varbinds_octets varbind_octets value_octets element length_bytes
    Writer.strip_sign bytes_be Writer.groups Writer.subid_octets Writer.subid_loop
    Writer.length_octets to_u32
bulk_pdu_size = omega arith

decode_pdu-facing_example :
    decode_pdu (facing before (pdu_octets bulk ++ behind) before)
    ≡ (facing (before ++ pdu_octets bulk) behind before, some bulk)
decode_pdu-facing_example =
    decode_pdu-facing bulk before behind before bulk-IsRepresentablePdu bulk_pdu_size
