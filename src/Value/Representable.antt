-- ===== src/Value/Representable.antt =====
-- Which values the C++ types of include/snmpio/Value.hpp hold.
use snmpio.Common.{◌^◌, ◌<◌, true, All, length, ◌≡◌}
use snmpio.Common.Int32.{IsInt32}
use snmpio.Oid.{IsSubid, is_encodable}
use snmpio.Value.{Value, Varbind}

-- The values that the C++ type holds, an OID being one that X.690 can encode.
abbrev pub IsRepresentable : Value → Type 0
IsRepresentable Value.null = Unit {0}
IsRepresentable (Value.integer v) = IsInt32 v
IsRepresentable (Value.octets v) = Unit {0}
IsRepresentable (Value.oid o) = (is_encodable o ≡ true) × All IsSubid o
IsRepresentable (Value.ip_address v) = length v ≡ 4
IsRepresentable (Value.counter32 v) = v < 2 ^ 32
IsRepresentable (Value.gauge32 v) = v < 2 ^ 32
IsRepresentable (Value.timeticks v) = v < 2 ^ 32
IsRepresentable (Value.opaque v) = Unit {0}
IsRepresentable (Value.counter64 v) = v < 2 ^ 64
IsRepresentable (Value.exception e) = Unit {0}

abbrev pub IsRepresentableVarbind : Varbind → Type 0
IsRepresentableVarbind vb =
    (is_encodable vb.name ≡ true) × All IsSubid vb.name × IsRepresentable vb.val
