-- ===== src/Ber/RoundTrip/OidContent.antt =====
-- OBJECT IDENTIFIER as a whole: `objectIdentifier` of the writer, then of the reader.
use snmpio.Common.{
  ℕ, zero, suc, ◌+◌, ◌-◌, ◌*◌, ◌/◌, ◌^◌, ◌≤◌, ◌<◌, true, some, Option, List, [], ◌∷◌, ◌++◌, length,
  All, ◌≡◌, refl, ap, ◌∙◌, arith, length-append,
}
use snmpio.Error.{Errc}
use snmpio.Oid.{Oid, IsSubid, is_encodable}
use snmpio.Oid.Arcs.{Arcs, encodable-Arcs}
use snmpio.Ber.Tag
use snmpio.Ber.Writer.{subid_loop, subid_octets, groups, packed}
use snmpio.Ber.Writer.Shape.{element, subid_run, oid_octets, length-groups}
use snmpio.Ber.Reader.{Reader, and_then}
use snmpio.Ber.Reader.Fields.{object_identifier, oid_result}
use snmpio.Ber.Reader.Oid.{unpack, oid_loop, decode_oid_content}
use snmpio.Ber.Reader.Cursor.{facing}
use snmpio.Ber.RoundTrip.Header.{primitive_content-facing}
use snmpio.Ber.RoundTrip.Oid.{oid_loop_step, oid_loop_run, subid_octets_lem}

unpack-packed : (a b n : ℕ) → Arcs a b n → unpack (a * 40 + b) ≡ a ∷ b ∷ []
unfolding unpack
unpack-packed zero b n h = ground (arith, h.second (omega arith))
unpack-packed (suc zero) b n h = ground (arith, h.second (omega arith))
unpack-packed (suc (suc zero)) b n h = ground arith
unpack-packed (suc (suc (suc a))) b n h = absurd (omega (arith, h.first))

packed_fits : (a b n : ℕ) → Arcs a b n → a * 40 + b < 2 ^ 32
packed_fits zero b n h = omega (arith, h.second (omega arith))
packed_fits (suc zero) b n h = omega (arith, h.second (omega arith))
packed_fits (suc (suc zero)) b n h = omega (arith, h.third refl)
packed_fits (suc (suc (suc a))) b n h = absurd (omega (arith, h.first))

subid_loop-le : (f v n : ℕ) → subid_loop f v n ≤ n + f
unfolding subid_loop
subid_loop-le zero v n = omega arith
subid_loop-le (suc f) v n = ground (arith, subid_loop-le f (v / 2 ^ 7) (n + 1))

length-subid_run-le : (vs : List ℕ) → length (subid_run vs) ≤ 10 * length vs
unfolding subid_octets
length-subid_run-le [] = omega arith
length-subid_run-le (v ∷ vs) = omega (
  arith,
  length-append (groups (subid_octets v) v) (subid_run vs),
  length-groups (subid_octets v) v,
  subid_loop-le 9 v 1,
  length-subid_run-le vs,
)

length-subid_run-ge : (vs : List ℕ) → All IsSubid vs → length vs ≤ length (subid_run vs)
length-subid_run-ge [] h = omega arith
length-subid_run-ge (v ∷ vs) h =
    let (j, e, _, _) = subid_octets_lem v h.0 in
    omega (
      arith,
      e,
      length-append (groups (subid_octets v) v) (subid_run vs),
      length-groups (subid_octets v) v,
      length-subid_run-ge vs h.1,
    )

decode_some :
    (c : List ℕ) (f : ℕ) → length c ≡ suc f → decode_oid_content c ≡ oid_loop (suc f) true [] c
unfolding decode_oid_content
decode_some [] f e = absurd (omega arith)
decode_some (b ∷ bs) f e = ap (λ (n : ℕ). oid_loop n true [] (b ∷ bs)) e

packed_back :
    (a b : ℕ) (rest : List ℕ)
    → Arcs a b (length rest)
    → All IsSubid rest
    → decode_oid_content (oid_octets (a ∷ b ∷ rest)) ≡ (Errc.ok, some (a ∷ b ∷ rest))
packed_back a b rest h hs =
    decode_some c f fuel
    ∙ oid_loop_step f true [] p (subid_run rest) fits
    ∙ rw (unpack-packed a b (length rest) h)
        (oid_loop_run rest f (a ∷ b ∷ []) hs enough (omega (arith, h.few)))
  where
    p : ℕ
    p = a * 40 + b

    c : List ℕ
    c = oid_octets (a ∷ b ∷ rest)

    f : ℕ
    f = length c - 1

    fits : p < 2 ^ 32
    fits = packed_fits a b (length rest) h

    longer : length rest + 1 ≤ length c
    longer = omega (arith, length-subid_run-ge (p ∷ rest) (fits, hs))

    fuel : length c ≡ suc f
    fuel = omega (arith, longer)

    enough : length rest ≤ f
    enough = omega (arith, longer)

-- The content octets of an encodable OID are decoded to it.
pub decode_oid_content-oid_octets :
    (o : Oid)
    → is_encodable o ≡ true
    → All IsSubid o
    → decode_oid_content (oid_octets o) ≡ (Errc.ok, some o)
unfolding is_encodable
decode_oid_content-oid_octets [] h hs = cc
decode_oid_content-oid_octets (a ∷ []) h hs = cc
decode_oid_content-oid_octets (a ∷ b ∷ rest) h hs =
    packed_back a b rest (encodable-Arcs a b rest h) hs.1.1

short_content : (o : Oid) → is_encodable o ≡ true → length (oid_octets o) < 2 ^ 32
unfolding is_encodable
short_content [] h = cc
short_content (a ∷ []) h = cc
short_content (a ∷ b ∷ rest) h =
    omega (arith, (encodable-Arcs a b rest h).few, length-subid_run-le (packed (a ∷ b ∷ rest)))

-- objectIdentifier of the reader reads an encodable OID of 32-bit sub-identifiers back from what
-- the writer emits for it, wherever that stands.
pub object_identifier-facing :
    (o : Oid) (pre xs post : List ℕ)
    → is_encodable o ≡ true
    → All IsSubid o
    → object_identifier (facing pre (element Tag.object_identifier (oid_octets o) ++ xs) post)
      ≡ (facing (pre ++ element Tag.object_identifier (oid_octets o)) xs post, some o)
unfolding object_identifier oid_result
object_identifier-facing o pre xs post h hs =
    ap
      (λ (p : Reader × Option (List ℕ)).
        and_then p.1 p.0 (λ content. oid_result (decode_oid_content content)))
      (primitive_content-facing Tag.object_identifier (oid_octets o) pre xs post refl refl
        (short_content o h))
    ∙ ap
        (λ (d : Errc × Option Oid).
          oid_result d (facing (pre ++ element Tag.object_identifier (oid_octets o)) xs post))
        (decode_oid_content-oid_octets o h hs)
