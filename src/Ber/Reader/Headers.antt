-- ===== src/Ber/Reader/Headers.antt =====
-- `readHeader` and `primitiveContent` of src/BerReader.cpp on any input.
use snmpio.Common.{
  ℕ, zero, suc, ◌+◌, ◌-◌, ◌*◌, ◌%◌, ◌^◌, ◌≤◌, false, none, ◌≡◌, refl, arith, ltb, ◌==◌, Bool-cases,
  inl, inr,
}
use snmpio.Error.{truncated, indefinite_length, reserved_length, length_too_large, high_tag_number}
use snmpio.Ber.Tag
use snmpio.Ber.Reader.{
  Reader, Header, has_error, fail, remaining, byte_at, advance, read_length, checked_header,
  long_length, header_length, read_header,
}
use snmpio.Ber.Reader.Outcome.{Kept, Outcome, Kept-refl, Kept-trans, fails-Outcome, Outcome-trans}

pub advance-Kept : (n : ℕ) (r : Reader) → r.pos + n ≤ r.end → Kept r (advance n r)
unfolding advance
advance-Kept n r h = record { buf = refl; end = refl; forward = omega arith; within = h }

pub has_error-advance : (n : ℕ) (r : Reader) → has_error r ≡ false → has_error (advance n r) ≡ false
unfolding advance
has_error-advance n r h = h

read_length-Kept :
    (n len : ℕ) (r : Reader)
    → has_error r ≡ false
    → r.pos + n ≤ r.end
    → Kept r (read_length n len r).0 × (has_error (read_length n len r).0 ≡ false)
unfolding read_length
read_length-Kept zero len r he h = (Kept-refl r (omega arith), he)
read_length-Kept (suc n) len r he h =
    let (k, e) =
      read_length-Kept n (len * 256 % 2 ^ 64 + byte_at r) (advance 1 r) (has_error-advance 1 r he)
        (unfold advance in omega arith) in
    (Kept-trans r (advance 1 r) _ (advance-Kept 1 r (omega arith)) k, e)

-- The content that a header announces lies inside the bound.
abbrev pub Fits : Header → Reader → Type 0
Fits h r' = r'.pos + h.length ≤ r'.end

checked_header-Outcome :
    (t len : ℕ) (r : Reader)
    → has_error r ≡ false
    → r.pos ≤ r.end
    → Outcome r Fits (checked_header t (r, len))
unfolding checked_header remaining
checked_header-Outcome t len r he h = elim (Bool-cases (ltb (r.end - r.pos) len)) [
  | inl c ↦ rw c (fails-Outcome truncated r h)
  | inr c ↦ rw c (Kept-refl r h, he, ground arith)
]

long_length-Outcome :
    (t count : ℕ) (r : Reader)
    → has_error r ≡ false
    → r.pos ≤ r.end
    → Outcome r Fits (long_length t count r)
unfolding long_length remaining
long_length-Outcome t count r he h = elim (Bool-cases (ltb 4 count)) [
  | inl c ↦ rw c (fails-Outcome length_too_large r h)
  | inr c ↦ elim (Bool-cases (ltb (r.end - r.pos) count)) [
    | inl d ↦ rw (c, d) (fails-Outcome truncated r h)
    | inr d ↦
        let p = read_length count 0 r in
        let (k, e) = read_length-Kept count 0 r he (ground arith) in
        rw (c, d)
          (Outcome-trans Fits Fits r p.0 (checked_header t p) k
            (checked_header-Outcome t p.1 p.0 e k.within) (λ a r2 k2 q. q))
  ]
]

header_length-Outcome :
    (t first : ℕ) (r : Reader)
    → has_error r ≡ false
    → r.pos ≤ r.end
    → Outcome r Fits (header_length t first r)
unfolding header_length
header_length-Outcome t first r he h = elim (Bool-cases (ltb first 0x80)) [
  | inl c ↦ rw c (checked_header-Outcome t first r he h)
  | inr c ↦ elim (Bool-cases (first == 0x80)) [
    | inl d ↦ rw (c, d) (fails-Outcome indefinite_length r h)
    | inr d ↦ elim (Bool-cases (first == 0xFF)) [
      | inl e ↦ rw (c, d, e) (fails-Outcome reserved_length r h)
      | inr e ↦ rw (c, d, e) (long_length-Outcome t (first % 128) r he h)
    ]
  ]
]

abbrev pub Behind : ℕ → Reader → Header → Reader → Type 0
Behind n r h r' = (r.pos + n ≤ r'.pos) × Fits h r'

-- From a reader whose cursor is not past its bound and that has no error, whatever lies ahead,
-- readHeader records an error and returns nothing, or takes two octets at least and returns a
-- length with which the content lies inside the bound; the buffer and the bound stay as they were.
pub read_header-Outcome :
    (r : Reader) → has_error r ≡ false → r.pos ≤ r.end → Outcome r (Behind 2 r) (read_header r)
unfolding read_header remaining
read_header-Outcome r he h = elim (Bool-cases (ltb (r.end - r.pos) 2)) [
  | inl c ↦ rw (he, c) (fails-Outcome truncated r h)
  | inr c ↦ elim (Bool-cases (Tag.is_high_tag_number (byte_at r))) [
    | inl d ↦
        rw (he, c, d)
          (Outcome-trans (Behind 2 r) (Behind 2 r) r (advance 1 r)
            (fail high_tag_number (advance 1 r), none) (advance-Kept 1 r (ground arith))
            (fails-Outcome high_tag_number (advance 1 r) (advance-Kept 1 r (ground arith)).within)
            (λ a r2 k2 q. q))
    | inr d ↦
        let r2 = advance 1 (advance 1 r) in
        rw (he, c, d)
          (Outcome-trans Fits (Behind 2 r) r r2
            (header_length (byte_at r) (byte_at (advance 1 r)) r2) (twice (ground arith))
            (header_length-Outcome (byte_at r) (byte_at (advance 1 r)) r2
              (has_error-advance 1 (advance 1 r) (has_error-advance 1 r he))
              (twice (ground arith)).within)
            (λ a r3 k q. (passed r3 k, q)))
  ]
]
  where
    twice : r.pos + 2 ≤ r.end → Kept r (advance 1 (advance 1 r))
    twice h2 =
        Kept-trans r (advance 1 r) _ (advance-Kept 1 r (omega arith))
          (advance-Kept 1 (advance 1 r) (unfold advance in omega arith))

    passed : (r3 : Reader) → Kept (advance 1 (advance 1 r)) r3 → r.pos + 2 ≤ r3.pos
    passed r3 k = let f = k.forward in unfold advance in omega arith
