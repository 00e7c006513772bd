-- ===== src/Ber/RoundTrip/Numbers.antt =====
-- INTEGER and the unsigned application types: minimal octets out, any padding in.
use snmpio.Common.{
  ℕ, suc, ◌+◌, ◌-◌, ◌*◌, ◌%◌, ◌^◌, ◌≤◌, ◌<◌, Bool, true, false, not, ◌&&◌, some, Option, List, [],
  ◌∷◌, ◌++◌, ◌==◌, if◌then◌else◌, length, get_or, ◌≡◌, refl, ap, ◌∙◌, arith, Bool-cases, inl, inr,
  le→ltb,
}
use snmpio.Common.Int32.{
  ℤ, pos, negsuc, IsInt32, is_negative, to_u32, from_u32, from_u32-to_u32, to_u32-lt,
}
use snmpio.Common.Bytes.{
  top_bit, shr, bytes_be, length-bytes_be, fold_octets, fold_octets-bytes_be, fold_octets_four,
}
use snmpio.Ber.Tag
use snmpio.Ber.Writer.{strip_sign, sign_pad}
use snmpio.Ber.Writer.Shape.{element, integer_octets, unsigned_octets}
use snmpio.Ber.Reader.{Reader, and_then, return}
use snmpio.Ber.Reader.Fields.{
  integer_content, integer, drop_zeros, significant, unsigned_content, unsigned32, unsigned64,
}
use snmpio.Ber.Reader.Cursor.{facing}
use snmpio.Ber.RoundTrip.Header.{primitive_content-facing}

strip_sign_idem :
    (p : ℕ) (n : Bool) (l : List ℕ) → strip_sign p n (strip_sign p n l) ≡ strip_sign p n l
unfolding strip_sign
strip_sign_idem p n [] = refl
strip_sign_idem p n (a ∷ []) = refl
strip_sign_idem p n (a ∷ b ∷ bs) = ground (arith, strip_sign_idem p n (b ∷ bs))

length-strip_sign : (p : ℕ) (n : Bool) (l : List ℕ) → length (strip_sign p n l) ≤ length l
unfolding strip_sign
length-strip_sign p n [] = omega arith
length-strip_sign p n (a ∷ []) = omega arith
length-strip_sign p n (a ∷ b ∷ bs) = ground (arith, length-strip_sign p n (b ∷ bs))

strip_sign_some : (p : ℕ) (n : Bool) (l : List ℕ) → 1 ≤ length l → 1 ≤ length (strip_sign p n l)
unfolding strip_sign
strip_sign_some p n [] h = h
strip_sign_some p n (a ∷ []) h = h
strip_sign_some p n (a ∷ b ∷ bs) h = ground (arith, strip_sign_some p n (b ∷ bs) (omega arith))

abbrev head : List ℕ → ℕ
head l = get_or l 0 0

strip_sign-head :
    (p : ℕ) (n : Bool) (l : List ℕ) → top_bit (head l) ≡ n → top_bit (head (strip_sign p n l)) ≡ n
unfolding strip_sign
strip_sign-head p n [] h = h
strip_sign-head p n (a ∷ []) h = h
strip_sign-head p n (a ∷ b ∷ bs) h = ground (arith, strip_sign-head p n (b ∷ bs))

-- Padding that reproduces the accumulator adds nothing to the number.
fold_octets-strip_sign :
    (w acc p : ℕ) (n : Bool) (l : List ℕ)
    → acc * 256 % 2 ^ w + p ≡ acc
    → fold_octets w acc (strip_sign p n l) ≡ fold_octets w acc l
unfolding strip_sign fold_octets
fold_octets-strip_sign w acc p n [] h = refl
fold_octets-strip_sign w acc p n (a ∷ []) h = refl
fold_octets-strip_sign w acc p n (a ∷ b ∷ bs) h =
    elim (Bool-cases (a == p && (if n then top_bit b else not (top_bit b)))) [
      | inl drops ↦
          let same : acc ≡ acc * 256 % 2 ^ w + a = ground arith in
          rw drops (
            fold_octets-strip_sign w acc p n (b ∷ bs) h
            ∙ ap (λ (t : ℕ). fold_octets w t (b ∷ bs)) same)
      | inr keeps ↦ rw keeps
    ]

drop_zeros-strip_sign : (l : List ℕ) → drop_zeros (strip_sign 0 false l) ≡ drop_zeros l
unfolding strip_sign drop_zeros
drop_zeros-strip_sign [] = refl
drop_zeros-strip_sign (a ∷ []) = refl
drop_zeros-strip_sign (a ∷ b ∷ bs) = ground (arith, drop_zeros-strip_sign (b ∷ bs))

fold_octets-drop_zeros : (l : List ℕ) → fold_octets 64 0 (drop_zeros l) ≡ fold_octets 64 0 l
unfolding drop_zeros fold_octets
fold_octets-drop_zeros [] = refl
fold_octets-drop_zeros (b ∷ bs) = elim (Bool-cases (b == 0)) [
  | inl e ↦
      let same : 0 ≡ 0 + b = ground arith in
      rw e (fold_octets-drop_zeros bs ∙ ap (λ (t : ℕ). fold_octets 64 t bs) same)
  | inr e ↦ rw e
]

length-drop_zeros : (l : List ℕ) → length (drop_zeros l) ≤ length l
unfolding drop_zeros
length-drop_zeros [] = omega arith
length-drop_zeros (b ∷ bs) = ground (arith, length-drop_zeros bs)

drop_zeros-bytes_be :
    (k n : ℕ) → n < 2 ^ (k * 8) → drop_zeros (bytes_be (suc k) n) ≡ drop_zeros (bytes_be k n)
unfolding drop_zeros bytes_be
drop_zeros-bytes_be k n h = let e : shr n (k * 8) % 256 ≡ 0 = grind arith in rw e refl

-- The sign of an Integer32 is the top bit of its first octet.
first_octet_sign : (v : ℤ) → IsInt32 v → top_bit (head (bytes_be 4 (to_u32 v))) ≡ is_negative v
unfolding bytes_be to_u32
first_octet_sign (pos n) h = ground arith
first_octet_sign (negsuc n) h = ground arith

abbrev fresh : Bool → ℕ
fresh negative = if negative then 2 ^ 32 - 1 else 0

fresh_pad : (n : Bool) → fresh n * 256 % 2 ^ 32 + sign_pad n ≡ fresh n
fresh_pad true = refl
fresh_pad false = refl

-- The decoder on octets that were stripped already, once their list is known to be `c`.
stripped_content :
    (n : Bool) (l c : List ℕ) (r : Reader)
    → c ≡ strip_sign (sign_pad n) n l
    → 1 ≤ length c
    → length c ≤ 4
    → top_bit (head c) ≡ n
    → integer_content c r ≡ (r, some (from_u32 (fold_octets 32 (fresh n) l)))
unfolding integer_content
stripped_content n l [] r e lo hi h = absurd (omega arith)
stripped_content n l (b ∷ bs) r e lo hi h =
    rw (h, again, le→ltb 4 (length (b ∷ bs)) hi)
      (ap (λ (m : ℕ). (r, some (from_u32 m)))
        (ap (fold_octets 32 (fresh n)) e
          ∙ fold_octets-strip_sign 32 (fresh n) (sign_pad n) n l (fresh_pad n)))
  where
    again : strip_sign (sign_pad n) n (b ∷ bs) ≡ b ∷ bs
    again = rw e (strip_sign_idem (sign_pad n) n l)

-- integer of the reader reads every 32-bit signed number back from the minimal two's complement
-- content that the writer chooses, under every primitive low tag.
pub integer-facing :
    (t : ℕ) (v : ℤ) (pre xs post : List ℕ)
    → Tag.is_constructed t ≡ false
    → Tag.is_high_tag_number t ≡ false
    → IsInt32 v
    → integer t (facing pre (element t (integer_octets v) ++ xs) post)
      ≡ (facing (pre ++ element t (integer_octets v)) xs post, some v)
unfolding integer
integer-facing t v pre xs post hp ht hv =
    ap (λ (p : Reader × Option (List ℕ)). and_then p.1 p.0 integer_content)
      (primitive_content-facing t c pre xs post hp ht (omega (arith, short)))
    ∙ stripped_content n l c _ refl long short
        (strip_sign-head (sign_pad n) n l (first_octet_sign v hv))
    ∙ ap (λ (u : ℤ). (facing (pre ++ element t c) xs post, some u))
        (ap from_u32 (fold_octets_four (fresh n) (to_u32 v) (to_u32-lt v)) ∙ from_u32-to_u32 v hv)
  where
    n : Bool
    n = is_negative v

    l : List ℕ
    l = bytes_be 4 (to_u32 v)

    c : List ℕ
    c = integer_octets v

    short : length c ≤ 4
    short = omega (arith, length-strip_sign (sign_pad n) n l, length-bytes_be 4 (to_u32 v))

    long : 1 ≤ length c
    long = strip_sign_some (sign_pad n) n l (omega (arith, length-bytes_be 4 (to_u32 v)))

-- The unsigned decoder on octets that were stripped already.
stripped_unsigned :
    (m v : ℕ) (l c : List ℕ) (r : Reader)
    → c ≡ strip_sign 0 false l
    → 1 ≤ length c
    → length (drop_zeros l) ≤ m
    → fold_octets 64 0 l ≡ v
    → significant m c r ≡ (r, some v)
unfolding significant
stripped_unsigned m v l [] r e lo hi h = absurd (omega arith)
stripped_unsigned m v l (b ∷ bs) r e lo hi h =
    rw (zeros, le→ltb m (length (drop_zeros l)) hi)
      (ap (λ (u : ℕ). (r, some u)) (fold_octets-drop_zeros l ∙ h))
  where
    zeros : drop_zeros (b ∷ bs) ≡ drop_zeros l
    zeros = rw e (drop_zeros-strip_sign l)

unsigned_value : (v : ℕ) → v < 2 ^ 64 → fold_octets 64 0 (0 ∷ bytes_be 8 v) ≡ v
unfolding fold_octets
unsigned_value v h =
    ap (λ (t : ℕ). fold_octets 64 t (bytes_be 8 v)) nothing ∙ fold_octets-bytes_be 64 8 v h
  where
    nothing : 0 * 256 % 2 ^ 64 + 0 ≡ shr v (8 * 8)
    nothing = omega arith

-- `k` octets hold every significant one of a number below 256 ^ k, for k = 8 and k = 4.
wide : (v : ℕ) → length (drop_zeros (0 ∷ bytes_be 8 v)) ≤ 8
unfolding drop_zeros
wide v = omega (arith, length-drop_zeros (bytes_be 8 v), length-bytes_be 8 v)

narrow : (v : ℕ) → v < 2 ^ 32 → length (drop_zeros (0 ∷ bytes_be 8 v)) ≤ 4
unfolding drop_zeros
narrow v h =
    rw
      (
        drop_zeros-bytes_be 7 v (omega arith),
        drop_zeros-bytes_be 6 v (omega arith),
        drop_zeros-bytes_be 5 v (omega arith),
        drop_zeros-bytes_be 4 v (omega arith),
      )
      (omega (arith, length-drop_zeros (bytes_be 4 v), length-bytes_be 4 v))

-- The unsigned reads give back what `unsigned64` wrote, its non-negative marker included.
unsigned_content-facing :
    (t m v : ℕ) (pre xs post : List ℕ)
    → Tag.is_constructed t ≡ false
    → Tag.is_high_tag_number t ≡ false
    → v < 2 ^ 64
    → length (drop_zeros (0 ∷ bytes_be 8 v)) ≤ m
    → unsigned_content t m (facing pre (element t (unsigned_octets v) ++ xs) post)
      ≡ (facing (pre ++ element t (unsigned_octets v)) xs post, some v)
unfolding unsigned_content
unsigned_content-facing t m v pre xs post hp ht hv hm =
    ap (λ (p : Reader × Option (List ℕ)). and_then p.1 p.0 (significant m))
      (primitive_content-facing t c pre xs post hp ht (omega (arith, short)))
    ∙ stripped_unsigned m v l c _ refl long hm (unsigned_value v hv)
  where
    l : List ℕ
    l = 0 ∷ bytes_be 8 v

    c : List ℕ
    c = unsigned_octets v

    short : length c ≤ 9
    short = omega (arith, length-strip_sign 0 false l, length-bytes_be 8 v)

    long : 1 ≤ length c
    long = strip_sign_some 0 false l (omega arith)

-- unsigned64 of the reader reads every 64-bit unsigned number back from the content that the
-- writer chooses, under every primitive low tag.
pub unsigned64-facing :
    (t v : ℕ) (pre xs post : List ℕ)
    → Tag.is_constructed t ≡ false
    → Tag.is_high_tag_number t ≡ false
    → v < 2 ^ 64
    → unsigned64 t (facing pre (element t (unsigned_octets v) ++ xs) post)
      ≡ (facing (pre ++ element t (unsigned_octets v)) xs post, some v)
unsigned64-facing t v pre xs post hp ht hv =
    unsigned_content-facing t 8 v pre xs post hp ht hv (wide v)

pub unsigned32-facing :
    (t v : ℕ) (pre xs post : List ℕ)
    → Tag.is_constructed t ≡ false
    → Tag.is_high_tag_number t ≡ false
    → v < 2 ^ 32
    → unsigned32 t (facing pre (element t (unsigned_octets v) ++ xs) post)
      ≡ (facing (pre ++ element t (unsigned_octets v)) xs post, some v)
unfolding unsigned32
unsigned32-facing t v pre xs post hp ht hv =
    ap (λ (p : Reader × Option ℕ). and_then p.1 p.0 (λ u. return (u % 2 ^ 32)))
      (unsigned_content-facing t 4 v pre xs post hp ht (omega arith) (narrow v hv))
    ∙ ap (λ (u : ℕ). (facing (pre ++ element t (unsigned_octets v)) xs post, some u)) fits
  where
    fits : v % 2 ^ 32 ≡ v
    fits = omega arith
