-- ===== src/Ber/RoundTrip/Oid.antt =====
-- OBJECT IDENTIFIER: `decodeOidContent` on the sub-identifiers that `objectIdentifier` emits.
use snmpio.Common.{
  ℕ, zero, suc, ◌+◌, ◌-◌, ◌*◌, ◌%◌, ◌^◌, ◌≤◌, ◌<◌, Bool, true, false, ◌&&◌, some, Option, List, [],
  ◌∷◌, ◌++◌, ltb, leb, ◌==◌, if◌then◌else◌, length, All, ◌≡◌, refl, ap, ◌∙◌, ◌⊎◌, arith, Bool-cases,
  inl, inr, le→ltb, length-append, append_assoc, append-nil,
}
use snmpio.Common.Bytes.{top_bit, shr, shr-le, pow_group, shr_group, shr-shr_group}
use snmpio.Error.{Errc, oid_too_long}
use snmpio.Oid.{Oid, IsSubid, max_subids}
use snmpio.Ber.Writer.{subid_loop, subid_octets, groups}
use snmpio.Ber.Writer.Shape.{subid_run}
use snmpio.Ber.Reader.Oid.{Subid, complete, subid_from, push_subid, failed, resume, oid_loop}

above_group : (j v : ℕ) → 0x80 ≤ v → (j ≡ 0) ⊎ (1 ≤ shr (shr v 7) (j * 7)) → 1 ≤ shr v (suc j * 7)
above_group j v h (inl e) = rw e (omega arith)
above_group j v h (inr lo) = omega (arith, shr-shr_group v j)

-- The loop counts the groups exactly: what is left above the last is below 128 and, if there is a
-- second group, not zero.
subid_loop_lem :
    (f v n : ℕ)
    → v < 2 ^ (f * 7) * 128
    → (j : ℕ) × (subid_loop f v n ≡ n + j) × (shr v (j * 7) < 128) × ((j ≡ 0) ⊎ (1 ≤ shr v (j * 7)))
unfolding subid_loop
subid_loop_lem zero v n h = (0, omega arith, omega arith, inl refl)
subid_loop_lem (suc f) v n h = elim (Bool-cases (leb 0x80 v)) [
  | inr done ↦ (0, rw done (omega arith), ground arith, inl refl)
  | inl more ↦
      let (j, e, hi, lo) = subid_loop_lem f (shr v 7) (n + 1) (omega (arith, pow_group f)) in
      (
        suc j,
        rw more (omega (arith, e)),
        omega (arith, shr-shr_group v j),
        inr (above_group j v (ground arith) lo),
      )
]

-- One round of the decoder, on a last group and on one with the top bit set.
last_group :
    (acc g : ℕ) (rest : List ℕ)
    → g < 128
    → acc * 128 + g < 2 ^ 32
    → subid_from acc (g ∷ rest) ≡ complete (acc * 128 + g) rest
unfolding subid_from
last_group acc g rest hg fits = ground arith

inner_group :
    (acc g : ℕ) (rest : List ℕ)
    → g < 128
    → acc * 128 + g < 2 ^ 32
    → subid_from acc ((g + 0x80) ∷ rest) ≡ subid_from (acc * 128 + g) rest
unfolding subid_from
inner_group acc g rest hg fits =
    let same : acc * 128 % 2 ^ 64 + (g + 0x80) % 128 ≡ acc * 128 + g = omega arith in
    let low : ltb (2 ^ 32 - 1) (acc * 128 + g) ≡ false = le→ltb _ _ (omega arith) in
    let top : top_bit (g + 0x80) ≡ true = ground arith in rw (same, low, top)

-- The groups are read back as the number, which has to fit the 32 bits of a sub-identifier.
subid_from-groups :
    (i v acc : ℕ) (rest : List ℕ)
    → v < 2 ^ 32
    → acc ≡ shr v (suc i * 7)
    → subid_from acc (groups (suc i) v ++ rest) ≡ complete v rest
unfolding groups
subid_from-groups zero v acc rest h e =
    last_group acc (shr v (0 * 7) % 128) rest (omega arith) (omega arith)
    ∙ ap (λ (u : ℕ). complete u rest) (omega arith)
subid_from-groups (suc i) v acc rest h e =
    let next : acc * 128 + shr v (suc i * 7) % 128 ≡ shr v (suc i * 7) =
      rw e (shr_group v (suc i)) in
    let inner : (suc i == 0) ≡ false = ground arith in
    rw inner (
      inner_group acc (shr v (suc i * 7) % 128) (groups (suc i) v ++ rest) (omega arith)
        (omega (arith, next, shr-le v (suc i * 7)))
      ∙ subid_from-groups i v _ rest h next)

-- What the writer emits for one sub-identifier passes the test for padding and is read back.
pub subid_octets_lem :
    (v : ℕ)
    → v < 2 ^ 32
    → (j : ℕ) × (subid_octets v ≡ suc j) × (shr v (j * 7) < 128) × ((j ≡ 0) ⊎ (1 ≤ shr v (j * 7)))
unfolding subid_octets
subid_octets_lem v h =
    let (j, e, hi, lo) = subid_loop_lem 9 v 1 (omega arith) in (j, omega (arith, e), hi, lo)

first_group :
    (j v : ℕ)
    → shr v (j * 7) < 128
    → (j ≡ 0) ⊎ (1 ≤ shr v (j * 7))
    → let g = shr v (j * 7) % 128 in
      let b = if j == 0 then g else g + 0x80 in (b % 128 == 0 && top_bit b) ≡ false
first_group zero v hi lo = ground arith
first_group (suc j) v hi (inl e) = absurd (omega arith)
first_group (suc j) v hi (inr lo) = ground arith

abbrev next_subid : ℕ → Bool → Oid → ℕ → List ℕ → Errc × Option Oid
next_subid f first result subid rest =
    let result' = push_subid first result subid in
    let more = oid_loop f false result' rest in
    if ltb max_subids (length result') then failed oid_too_long else more

oid_loop-groups :
    (f : ℕ) (first : Bool) (result : Oid) (v j : ℕ) (rest : List ℕ)
    → v < 2 ^ 32
    → shr v (j * 7) < 128
    → (j ≡ 0) ⊎ (1 ≤ shr v (j * 7))
    → oid_loop (suc f) first result (groups (suc j) v ++ rest) ≡ next_subid f first result v rest
unfolding oid_loop groups
oid_loop-groups f first result v j rest h hi lo = rw (first_group j v hi lo) (
    ap (λ (s : Subid). resume s (next_subid f first result))
      (subid_from-groups j v 0 rest h (omega (arith, shr_group v j))))

pub oid_loop_step :
    (f : ℕ) (first : Bool) (result : Oid) (v : ℕ) (rest : List ℕ)
    → v < 2 ^ 32
    → oid_loop (suc f) first result (groups (subid_octets v) v ++ rest)
      ≡ next_subid f first result v rest
oid_loop_step f first result v rest h =
    let (j, e, hi, lo) = subid_octets_lem v h in
    rw e (oid_loop-groups f first result v j rest h hi lo)

pub oid_loop_run :
    (vs : List ℕ) (f : ℕ) (result : Oid)
    → All IsSubid vs
    → length vs ≤ f
    → length result + length vs ≤ max_subids
    → oid_loop f false result (subid_run vs) ≡ (Errc.ok, some (result ++ vs))
oid_loop_run [] zero result h hf hm = rw append-nil (unfold oid_loop in refl)
oid_loop_run [] (suc f) result h hf hm = rw append-nil (unfold oid_loop in refl)
oid_loop_run (v ∷ vs) zero result h hf hm = absurd (omega arith)
oid_loop_run (v ∷ vs) (suc f) result h hf hm =
    oid_loop_step f false result v (subid_run vs) h.0
    ∙ rw (le→ltb max_subids (length (result ++ v ∷ [])) room) (
        oid_loop_run vs f (result ++ v ∷ []) h.1 (omega arith) (omega (arith, size))
        ∙ ap (λ (o : Oid). (Errc.ok, some o)) (append_assoc result (v ∷ []) vs))
  where
    size : length (result ++ v ∷ []) ≡ length result + 1
    size = length-append result (v ∷ [])

    room : length (result ++ v ∷ []) ≤ max_subids
    room = omega (arith, size)
