-- ===== src/Pdu/Verdict.antt =====
-- `decodeV2cMessage` of src/Pdu.cpp on any datagram.
use snmpio.Ber.Reader.Fields
use snmpio.Common.{
  ℕ, ◌^◌, ◌≤◌, ◌<◌, Bool, true, false, not, none, some, Option, ◌≡◌, refl, sym, ap, ◌∙◌, arith,
  subst, List, All, if-holds, length, ◌==◌, Bool-cases, inl, inr,
}
use snmpio.Common.Int32.{ℤ, IsInt32}
use snmpio.Common.Bytes.{IsByte}
use snmpio.Error.{Errc, trailing_data}
use snmpio.Value.{Octets}
use snmpio.Ber.Tag
use snmpio.Ber.Reader
use snmpio.Ber.Reader.{Reader, Scope, has_error}
use snmpio.Ber.Reader.Outcome.{Kept, Outcome, Kept-trans, Element, has_error-fail}
use snmpio.Ber.Reader.Contents.{
  integer-Outcome, integer-IsSticky, primitive_content-Outcome, primitive_content-IsSticky,
}
use snmpio.Ber.Reader.Scopes.{Opened, enter-Opened}
use snmpio.Ber.Reader.Varbinds.{InBounds}
use snmpio.Pdu.{
  Pdu, V2cMessage, decode_pdu, is_version, version_v2c, v2c_pdu, v2c_fields, v2c_body, finished,
  encode_v2c_message, decode_v2c_message,
}
use snmpio.Pdu.Representable.{IsRepresentablePdu}
use snmpio.Pdu.Decoded.{decode_pdu-Outcome}
use snmpio.Pdu.Message.{decode_v2c_message-encode_v2c_message}

-- An error and no message, or a message that can be encoded and no error.
abbrev pub IsV2cVerdict : Option Errc × Option V2cMessage → Type 0
IsV2cVerdict (some e, none) = Unit {0}
IsV2cVerdict (none, some m) = IsRepresentablePdu m.pdu
IsV2cVerdict _ = ⊥

error_verdict : (r : Reader) → has_error r ≡ true → IsV2cVerdict (r.ec, none)
error_verdict r e =
    elim r.ec
        as (λ o.
          ((elim o as (λ _. Bool) [ none ↦ false | some c ↦ true ]) ≡ true)
          → IsV2cVerdict (o, none)) [ none ↦ λ h. cc | some c ↦ λ h. tt ]
      e

pdu_verdict :
    (c : Octets) (r : Reader) (p : Reader × Option Pdu)
    → All IsByte r.buf
    → Outcome r (Element IsRepresentablePdu r) p
    → IsV2cVerdict (v2c_pdu c p).1
unfolding v2c_pdu
pdu_verdict c r (r1, none) hb (k, e) = error_verdict r1 e
pdu_verdict c r (r1, some pdu) hb (k, e, q) = q.1 hb

no_version :
    (o : Option Octets) (r : Reader) → has_error r ≡ true → IsV2cVerdict (v2c_fields none o r).1
unfolding v2c_fields
no_version o r e = error_verdict r e

no_community :
    (v : ℤ) (r : Reader) → has_error r ≡ true → IsV2cVerdict (v2c_fields (some v) none r).1
unfolding v2c_fields
no_community v r e = error_verdict r e

module _ (r0 : Reader) (hb : All IsByte r0.buf) (hl : r0.end ≤ length r0.buf) where
  bounds : (r : Reader) → Kept r0 r → InBounds r
  bounds r k = (k.within, omega (arith, k.end, ap (λ (l : List ℕ). length l) k.buf))

  fields_verdict :
      (v : ℤ) (c : Octets) (r : Reader)
      → Kept r0 r
      → has_error r ≡ false
      → IsV2cVerdict (v2c_fields (some v) (some c) r).1
  unfolding v2c_fields
  fields_verdict v c r k e =
      if-holds (λ (p : Reader × (Option Errc × Option V2cMessage)). IsV2cVerdict p.1) _ _
        (not (is_version v version_v2c)) (λ _. tt)
        (λ _.
          pdu_verdict c r (decode_pdu r) (subst (All IsByte) (sym k.buf) hb)
            (decode_pdu-Outcome r e (bounds r k)))

  community_verdict :
      (v : ℤ) (r : Reader) (p : Reader × Option Octets)
      → Kept r0 r
      → Outcome r (Element (All IsByte) r) p
      → IsV2cVerdict (v2c_fields (some v) p.1 p.0).1
  community_verdict v r (r1, none) k (k1, e) = no_community v r1 e
  community_verdict v r (r1, some c) k (k1, e, q) =
      fields_verdict v c r1 (Kept-trans r0 r r1 k k1) e

  version_verdict :
      (p : Reader × Option ℤ)
      → Outcome r0 (Element IsInt32 r0) p
      → let m = Reader.octet_string Tag.octet_string p.0 in IsV2cVerdict (v2c_fields p.1 m.1 m.0).1
  version_verdict (r1, none) (k, e) = no_version _ (Reader.octet_string Tag.octet_string r1).0 (
      ap (λ (m : Reader × Option Octets). has_error m.0)
        (primitive_content-IsSticky Tag.octet_string r1 e)
      ∙ e)
  version_verdict (r1, some v) (k, e, q) =
      community_verdict v r1 (Reader.octet_string Tag.octet_string r1) k
        (primitive_content-Outcome Tag.octet_string r1 e k.within)

  body_verdict : has_error r0 ≡ false → r0.pos ≤ r0.end → IsV2cVerdict (v2c_body r0).1
  unfolding v2c_body
  body_verdict he h =
      version_verdict (Fields.integer Tag.integer r0) (integer-Outcome Tag.integer r0 he h)

no_body : (r : Reader) → has_error r ≡ true → IsV2cVerdict (v2c_body r).1
unfolding v2c_body
no_body r e =
    subst
      (λ (p : Reader × Option ℤ).
        let m = Reader.octet_string Tag.octet_string p.0 in IsV2cVerdict (v2c_fields p.1 m.1 m.0).1)
      (sym (integer-IsSticky Tag.integer r e))
      (no_version _ (Reader.octet_string Tag.octet_string r).0 (
        ap (λ (m : Reader × Option Octets). has_error m.0)
          (primitive_content-IsSticky Tag.octet_string r e)
        ∙ e))

finished_verdict :
    (r : Reader) (q : Option Errc × Option V2cMessage)
    → IsV2cVerdict q
    → IsV2cVerdict (finished r q)
unfolding finished Reader.finish
finished_verdict r (some e, none) v = tt
finished_verdict r (none, none) v = absurd v
finished_verdict r (some e, some m) v = absurd v
finished_verdict r (none, some m) v = elim (Bool-cases (has_error r)) [
  | inl e ↦ rw e (error_verdict r e)
  | inr e ↦ elim (Bool-cases (r.pos == r.end)) [
    | inl f ↦ rw (e, f) v
    | inr f ↦
        rw (e, f) (error_verdict (Reader.fail trailing_data r) (has_error-fail trailing_data r))
  ]
]

-- For every datagram of octets, well formed or not, decodeV2cMessage either reports an error and
-- no message, or no error and a message whose PDU can be encoded again; its loops never run out of
-- rounds.
pub decode_v2c_message-IsV2cVerdict :
    (datagram : List ℕ) → All IsByte datagram → IsV2cVerdict (decode_v2c_message datagram)
unfolding decode_v2c_message Reader.over
decode_v2c_message-IsV2cVerdict datagram hb =
    finished_verdict
      (Reader.leave (Reader.enter Tag.sequence r).1 (v2c_body (Reader.enter Tag.sequence r).0).0)
      (v2c_body (Reader.enter Tag.sequence r).0).1
      (inside (Reader.enter Tag.sequence r).0 (Reader.enter Tag.sequence r).1
        (enter-Opened Tag.sequence r refl (omega arith)))
  where
    r : Reader
    r = record { buf = datagram; pos = 0; end = length datagram; ec = none }

    inside : (r1 : Reader) (s : Scope) → Opened r r1 s → IsV2cVerdict (v2c_body r1).1
    inside r1 s o = elim o.state [
      | inl e ↦ no_body r1 e
      | inr w ↦
          body_verdict r1 (subst (All IsByte) (sym o.buf) hb)
            (omega (arith, w.1.2, o.within, ap (λ (l : List ℕ). length l) o.buf)) w.0 w.1.1
    ]

verdict_message :
    (q : Option Errc × Option V2cMessage) (m : V2cMessage)
    → IsV2cVerdict q
    → q ≡ (none, some m)
    → IsRepresentablePdu m.pdu
verdict_message q m v e = subst IsV2cVerdict e v

-- For every datagram of octets that decodeV2cMessage accepts, however it was encoded,
-- encodeV2cMessage takes the message without an error, and if what it writes is shorter than 2^32
-- octets decodeV2cMessage reads the same result from that.
pub decode_v2c_message-stable :
    (datagram : List ℕ) (m : V2cMessage)
    → All IsByte datagram
    → decode_v2c_message datagram ≡ (none, some m)
    → length (encode_v2c_message m.community m.pdu).1 < 2 ^ 32
    → ((encode_v2c_message m.community m.pdu).0 ≡ none)
      × (decode_v2c_message (encode_v2c_message m.community m.pdu).1 ≡ decode_v2c_message datagram)
decode_v2c_message-stable datagram m hb h hn =
    let (e, d) =
      decode_v2c_message-encode_v2c_message m.community m.pdu
        (verdict_message (decode_v2c_message datagram) m
          (decode_v2c_message-IsV2cVerdict datagram hb) h)
        hn in
    (e, d ∙ sym h)
