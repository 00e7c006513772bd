-- ===== src/Tests/Hostile.antt =====
-- The reader and the decoders at input that no writer wrote.
use snmpio.Ber.Reader.Fields
use snmpio.Common.{
  Bool, true, ◌&&◌, ltb, ltb→lt, Bool-cases, inl, inr, ℕ, ◌<◌, ◌^◌, All, none, some, List, [], ◌∷◌,
  length, ◌≡◌, refl, arith,
}
use snmpio.Common.Bytes.{IsByte, fold_octets}
use snmpio.Common.Int32.{pos, from_u32}
use snmpio.Value.Representable.{IsRepresentable, IsRepresentableVarbind}
use snmpio.Ber.Writer
use snmpio.Ber.Reader
use snmpio.Ber.Reader.{Reader, read_header}
use snmpio.Ber.Reader.Fields.{any_value, varbind_list}
use snmpio.Ber.Reader.Outcome.{Outcome, Element}
use snmpio.Ber.Reader.Headers.{Behind, read_header-Outcome}
use snmpio.Ber.Reader.Decoded.{any_value-Outcome}
use snmpio.Ber.Reader.Varbinds.{varbind_list-Outcome}
use snmpio.Ber.Reader.Oid.{decode_oid_content}
use snmpio.Ber.Reader.Subids.{IsVerdict, decode_oid_content-IsVerdict}
use snmpio.Pdu.{
  Pdu, PduType, V2cMessage, decode_pdu, encode_v2c_message, decode_v2c_message, v2c_body,
  v2c_fields, v2c_pdu, finished, pdu_at, pdu_of_tag, is_pdu_tag, pdu_type_of, pdu_body, all_present,
}
use snmpio.Pdu.Representable.{IsRepresentablePdu}
use snmpio.Pdu.Decoded.{decode_pdu-Outcome}
use snmpio.Pdu.Verdict.{IsV2cVerdict, decode_v2c_message-IsV2cVerdict, decode_v2c_message-stable}
use snmpio.Tests.Codec.{encoded}

-- A tag whose length says more than there is.
abbrev short : List ℕ
short = 0xA2 ∷ 0x84 ∷ 255 ∷ 255 ∷ 255 ∷ 255 ∷ 2 ∷ []

abbrev reader : Reader
reader = record { buf = short; pos = 0; end = 7; ec = none }

read_header-Outcome_example : Outcome reader (Behind 2 reader) (read_header reader)
read_header-Outcome_example = read_header-Outcome reader refl (omega arith)

any_value-Outcome_example : Outcome reader (Element IsRepresentable reader) (any_value reader)
any_value-Outcome_example = any_value-Outcome reader refl (omega arith)

varbind_list-Outcome_example :
    Outcome reader (Element (All IsRepresentableVarbind) reader) (varbind_list reader)
varbind_list-Outcome_example = varbind_list-Outcome reader refl (omega arith, omega arith)

decode_pdu-Outcome_example : Outcome reader (Element IsRepresentablePdu reader) (decode_pdu reader)
decode_pdu-Outcome_example = decode_pdu-Outcome reader refl (omega arith, omega arith)

-- A sub-identifier of more than 32 bits.
decode_oid_content-IsVerdict_example :
    IsVerdict (decode_oid_content (43 ∷ 144 ∷ 128 ∷ 128 ∷ 128 ∷ 0 ∷ []))
decode_oid_content-IsVerdict_example =
    decode_oid_content-IsVerdict (43 ∷ 144 ∷ 128 ∷ 128 ∷ 128 ∷ 0 ∷ [])

decode_v2c_message-IsV2cVerdict_example :
    IsV2cVerdict (decode_v2c_message (0x30 ∷ 3 ∷ 2 ∷ 1 ∷ 1 ∷ []))
decode_v2c_message-IsV2cVerdict_example =
    decode_v2c_message-IsV2cVerdict (0x30 ∷ 3 ∷ 2 ∷ 1 ∷ 1 ∷ [])
      (omega arith, (omega arith, (omega arith, (omega arith, (omega arith, tt)))))

-- An empty Response whose lengths and integers are longer than they have to be.
abbrev padded : List ℕ
padded =
    0x30 ∷ 0x81 ∷ 19 ∷ 2 ∷ 1 ∷ 1 ∷ 4 ∷ 0 ∷ 0xA2 ∷ 12 ∷ 2 ∷ 2 ∷ 0 ∷ 7 ∷ 2 ∷ 1 ∷ 0 ∷ 2 ∷ 1 ∷ 0 ∷ 0x30
    ∷ 0 ∷ []

abbrev empty_response : Pdu
empty_response = record {
  type = PduType.response;
  request_id = pos 7;
  error_status = pos 0;
  error_index = pos 0;
  varbinds = [];
}

abbrev message : V2cMessage
message = record { community = []; pdu = empty_response }

-- The test of the range, octet by octet.
abbrev are_bytes : List ℕ → Bool
are_bytes [] = true
are_bytes (b ∷ bs) = ltb b 256 && are_bytes bs

byte_list : (bs : List ℕ) → are_bytes bs ≡ true → All IsByte bs
byte_list [] h = tt
byte_list (b ∷ bs) h = elim (Bool-cases (ltb b 256)) [
  | inl e ↦ (ltb→lt b 256 e, byte_list bs (rw e at h))
  | inr e ↦ absurd (cc (rw e at h))
]

padded_decoded : decode_v2c_message padded ≡ (none, some message)
unfolding decode_v2c_message v2c_body v2c_fields v2c_pdu finished decode_pdu pdu_at pdu_of_tag
    is_pdu_tag pdu_type_of pdu_body all_present Reader.over Reader.enter Reader.enter_header
    Reader.leave Reader.finish Reader.fail Reader.peek_tag Reader.at_end Reader.remaining
    Reader.byte_at Reader.advance Reader.read_header Reader.header_length Reader.long_length
    Reader.checked_header Reader.read_length Reader.primitive_content Reader.content_at
    Reader.content_of_tag Reader.take_content Fields.integer Fields.integer_content Reader.in_scope
    Reader.unless_failed Fields.varbind_list Fields.varbinds_loop Writer.strip_sign fold_octets
    from_u32
padded_decoded = refl

padded_octets : All IsByte padded
padded_octets = byte_list padded refl

rewritten_size : length (encode_v2c_message [] empty_response).1 < 2 ^ 32
unfolding encoded
rewritten_size = omega arith

decode_v2c_message-stable_example :
    ((encode_v2c_message [] empty_response).0 ≡ none)
    × (decode_v2c_message (encode_v2c_message [] empty_response).1 ≡ decode_v2c_message padded)
decode_v2c_message-stable_example =
    decode_v2c_message-stable padded message padded_octets padded_decoded rewritten_size
