-- ===== src/Tests/Codec.antt =====
-- The codec at concrete messages.
use snmpio.Common.{ℕ, ◌<◌, ◌^◌, ◌≡◌, refl, arith, List, [], ◌∷◌, Option, none, some, length}
use snmpio.Common.Int32.{pos, negsuc, to_u32}
use snmpio.Error.{Errc}
use snmpio.Value.{Octets, Value}
use snmpio.Oid.{is_encodable}
use snmpio.Common.Bytes.{bytes_be}
use snmpio.Ber.Writer
use snmpio.Pdu.{encode_pdu, pdu_tag, Pdu, PduType, encode_v2c_message, decode_v2c_message}
use snmpio.Pdu.Representable.{IsRepresentablePdu}
use snmpio.Pdu.Message.{decode_v2c_message-encode_v2c_message}

abbrev pub bulk : Pdu
bulk = record {
  type = PduType.get_bulk;
  request_id = pos 70000;
  error_status = negsuc 128;
  error_index = pos 127;
  varbinds =
      record { name = 1 ∷ 3 ∷ 6 ∷ 300 ∷ []; val = Value.counter64 0xFFFF_FFFF_FFFF_FFFF } ∷ [];
}

abbrev pub public : Octets
public = b'p' ∷ b'u' ∷ b'b' ∷ []

pub bulk-IsRepresentablePdu : IsRepresentablePdu bulk
unfolding is_encodable
bulk-IsRepresentablePdu = record {
  request_id = omega arith;
  error_status = omega arith;
  error_index = omega arith;
  varbinds = ((refl, omega arith, omega arith), tt);
}

unfoldable pub encoded : Option Errc × List ℕ
unfolding encode_v2c_message encode_pdu pdu_tag Writer.new Writer.in_scope Writer.begin_constructed
    Writer.fail Writer.close_scope Writer.widen Writer.patch_length Writer.length_octets
    Writer.significant_loop Writer.put_length Writer.integer Writer.strip_sign Writer.unsigned64
    Writer.octet_string Writer.object_identifier Writer.subid_octets Writer.subid_loop Writer.groups
    Writer.write_value Writer.write_varbind Writer.varbind_list is_encodable bytes_be to_u32
encoded = encode_v2c_message public bulk

bulk_size : length (encode_v2c_message public bulk).1 < 2 ^ 32
unfolding encoded
bulk_size = omega arith

bulk_octets : encoded ≡ (
  none,
  0x30 ∷ 43 ∷ 2 ∷ 1 ∷ 1 ∷ 4 ∷ 3 ∷ b'p' ∷ b'u' ∷ b'b' ∷ 0xA5 ∷ 33 ∷ 2 ∷ 3 ∷ 1 ∷ 17 ∷ 112 ∷ 2 ∷ 2
      ∷ 255 ∷ 127 ∷ 2 ∷ 1 ∷ 127 ∷ 0x30 ∷ 19 ∷ 0x30 ∷ 17 ∷ 6 ∷ 4 ∷ 43 ∷ 6 ∷ 130 ∷ 44 ∷ 70 ∷ 9 ∷ 0
      ∷ 255 ∷ 255 ∷ 255 ∷ 255 ∷ 255 ∷ 255 ∷ 255 ∷ 255 ∷ [],
)
unfolding encoded
bulk_octets = refl

decode_v2c_message-encode_v2c_message_example :
    ((encode_v2c_message public bulk).0 ≡ none)
    × (decode_v2c_message (encode_v2c_message public bulk).1
        ≡ (none, some (record { community = public; pdu = bulk })))
decode_v2c_message-encode_v2c_message_example =
    decode_v2c_message-encode_v2c_message public bulk bulk-IsRepresentablePdu bulk_size
