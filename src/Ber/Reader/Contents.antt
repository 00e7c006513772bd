-- ===== src/Ber/Reader/Contents.antt =====
-- The primitive reads of src/BerReader.cpp on any input: what the contents they accept are turned into.
use snmpio.Common.{
  ℕ, ◌+◌, ◌%◌, ◌^◌, ◌≤◌, ◌<◌, Bool, true, false, not, ◌&&◌, ◌-◌, none, some, Option, ◌≡◌, sym,
  arith, subst, [], ◌∷◌, All, All-take, All-drop, ltb, ◌==◌, if◌then◌else◌, length, drop,
}
use snmpio.Common.Int32.{IsInt32, from_u32-IsInt32}
use snmpio.Common.Bytes.{IsByte, top_bit, fold_octets, fold_octets-lt32, fold_octets-lt64}
use snmpio.Error.{truncated, unexpected_tag, empty_content, integer_too_large}
use snmpio.Value.{Octets}
use snmpio.Ber.Tag
use snmpio.Ber.Writer.{strip_sign, sign_pad}
use snmpio.Ber.Reader.{
  Reader, has_error, peek_tag, read_header, advance, take_content, content_of_tag, content_at,
  primitive_content, return, ◌>>=◌,
}
use snmpio.Ber.Reader.Fields.{
  integer_content, integer, drop_zeros, significant, unsigned_content, unsigned32, unsigned64,
}
use snmpio.Ber.Reader.Outcome.{
  Kept, Outcome, Kept-refl, Kept-trans, fails-Outcome, if-Outcome, and_then-Outcome, Element,
  checked-Outcome, IsSticky, bind-IsSticky,
}
use snmpio.Ber.Reader.Headers.{Behind, advance-Kept, has_error-advance, read_header-Outcome}

taken :
    (r r1 : Reader) (n : ℕ)
    → has_error r1 ≡ false
    → Kept r r1
    → r.pos + 2 ≤ r1.pos
    → r1.pos + n ≤ r1.end
    → Outcome r (Element (All IsByte) r) (take_content n r1)
unfolding take_content
taken r r1 n e k fwd fits =
    let a = advance-Kept n r1 fits in
    (
      Kept-trans r r1 (advance n r1) k a,
      has_error-advance n r1 e,
      (
        omega (arith, a.forward),
        λ hb.
            All-take IsByte n (drop r1.pos r1.buf)
              (All-drop IsByte r1.pos r1.buf (subst (All IsByte) (sym k.buf) hb)),
      ),
    )

content_of_tag-Outcome :
    (expected t : ℕ) (r : Reader)
    → has_error r ≡ false
    → r.pos ≤ r.end
    → Outcome r (Element (All IsByte) r) (content_of_tag expected t r)
unfolding content_of_tag
content_of_tag-Outcome expected t r he h =
    if-Outcome r (Element (All IsByte) r) _ _ (not (t == expected))
      (λ _. fails-Outcome unexpected_tag r h)
      (λ _.
        if-Outcome r (Element (All IsByte) r) _ _ (Tag.is_constructed expected)
          (λ _. fails-Outcome unexpected_tag r h)
          (λ _.
            and_then-Outcome (Behind 2 r) (Element (All IsByte) r) r (read_header r) _
              (read_header-Outcome r he h) (λ hd r1 k e b. taken r r1 hd.length e k b.0 b.1)))

content_at-Outcome :
    (expected : ℕ) (o : Option ℕ) (r : Reader)
    → has_error r ≡ false
    → r.pos ≤ r.end
    → Outcome r (Element (All IsByte) r) (content_at expected o r)
unfolding content_at
content_at-Outcome expected none r he h = fails-Outcome truncated r h
content_at-Outcome expected (some t) r he h = content_of_tag-Outcome expected t r he h

pub primitive_content-Outcome :
    (expected : ℕ) (r : Reader)
    → has_error r ≡ false
    → r.pos ≤ r.end
    → Outcome r (Element (All IsByte) r) (primitive_content expected r)
unfolding primitive_content
primitive_content-Outcome expected r he h = rw he (content_at-Outcome expected (peek_tag r) r he h)

pub primitive_content-IsSticky : (expected : ℕ) → IsSticky (primitive_content expected)
unfolding primitive_content
primitive_content-IsSticky expected r he = rw he

-- A read that returns with the reader as it is.
pub return-Outcome :
    {A : Type 0} (P : A → Type 0) (a : A) (r : Reader)
    → has_error r ≡ false
    → r.pos ≤ r.end
    → P a
    → Outcome r (λ b _. P b) (return a r)
return-Outcome P a r he h p = (Kept-refl r h, he, p)

All-if : (b : Bool) (x y : Octets) → All IsByte x → All IsByte y → All IsByte (if b then x else y)
All-if true x y hx hy = hx
All-if false x y hx hy = hy

strip_sign-All : (pad : ℕ) (n : Bool) (c : Octets) → All IsByte c → All IsByte (strip_sign pad n c)
unfolding strip_sign
strip_sign-All pad n [] h = tt
strip_sign-All pad n (a ∷ []) h = h
strip_sign-All pad n (a ∷ b ∷ bs) h =
    All-if (a == pad && (if n then top_bit b else not (top_bit b))) _ _
      (strip_sign-All pad n (b ∷ bs) h.1) h

drop_zeros-All : (c : Octets) → All IsByte c → All IsByte (drop_zeros c)
unfolding drop_zeros
drop_zeros-All [] h = tt
drop_zeros-All (b ∷ bs) h = All-if (b == 0) _ _ (drop_zeros-All bs h.1) h

start_fits : (n : Bool) → (if n then 2 ^ 32 - 1 else 0) < 2 ^ 32
start_fits true = omega arith
start_fits false = omega arith

integer_content-Outcome :
    (c : Octets) (r : Reader)
    → has_error r ≡ false
    → r.pos ≤ r.end
    → Outcome r (λ v _. All IsByte c → IsInt32 v) (integer_content c r)
unfolding integer_content
integer_content-Outcome [] r he h = fails-Outcome empty_content r h
integer_content-Outcome (b ∷ bs) r he h =
    let n = top_bit b in
    let kept = strip_sign (sign_pad n) n (b ∷ bs) in
    if-Outcome r (λ v _. All IsByte (b ∷ bs) → IsInt32 v) _ _ (ltb 4 (length kept))
      (λ _. fails-Outcome integer_too_large r h)
      (λ _.
        return-Outcome (λ v. All IsByte (b ∷ bs) → IsInt32 v) _ r he h
          (λ hb. from_u32-IsInt32 (fold_octets 32 (if n then 2 ^ 32 - 1 else 0) kept) (
            fold_octets-lt32 (if n then 2 ^ 32 - 1 else 0) kept (start_fits n)
              (strip_sign-All (sign_pad n) n (b ∷ bs) hb))))

-- An INTEGER that is accepted is a 32-bit signed number.
pub integer-Outcome :
    (t : ℕ) (r : Reader)
    → has_error r ≡ false
    → r.pos ≤ r.end
    → Outcome r (Element IsInt32 r) (integer t r)
unfolding integer
integer-Outcome t r he h =
    checked-Outcome (All IsByte) IsInt32 r (primitive_content t) integer_content
      (primitive_content-Outcome t r he h) integer_content-Outcome

pub integer-IsSticky : (t : ℕ) → IsSticky (integer t)
unfolding integer
integer-IsSticky t =
    bind-IsSticky (primitive_content t) integer_content (primitive_content-IsSticky t)

abbrev pub Below : ℕ → ℕ → Type 0
Below n v = v < n

significant-Outcome :
    (m : ℕ) (c : Octets) (r : Reader)
    → has_error r ≡ false
    → r.pos ≤ r.end
    → Outcome r (λ v _. All IsByte c → Below (2 ^ 64) v) (significant m c r)
unfolding significant
significant-Outcome m [] r he h = fails-Outcome empty_content r h
significant-Outcome m (b ∷ bs) r he h =
    let kept = drop_zeros (b ∷ bs) in
    if-Outcome r (λ v _. All IsByte (b ∷ bs) → Below (2 ^ 64) v) _ _ (ltb m (length kept))
      (λ _. fails-Outcome integer_too_large r h)
      (λ _.
        return-Outcome (λ v. All IsByte (b ∷ bs) → Below (2 ^ 64) v) _ r he h
          (λ hb. fold_octets-lt64 0 kept (omega arith) (drop_zeros-All (b ∷ bs) hb)))

pub unsigned64-Outcome :
    (t : ℕ) (r : Reader)
    → has_error r ≡ false
    → r.pos ≤ r.end
    → Outcome r (Element (Below (2 ^ 64)) r) (unsigned64 t r)
unfolding unsigned_content
unsigned64-Outcome t r he h =
    checked-Outcome (All IsByte) (Below (2 ^ 64)) r (primitive_content t) (significant 8)
      (primitive_content-Outcome t r he h) (significant-Outcome 8)

pub unsigned32-Outcome :
    (t : ℕ) (r : Reader)
    → has_error r ≡ false
    → r.pos ≤ r.end
    → Outcome r (Element (Below (2 ^ 32)) r) (unsigned32 t r)
unfolding unsigned32 unsigned_content
unsigned32-Outcome t r he h =
    checked-Outcome (Below (2 ^ 64)) (Below (2 ^ 32)) r (primitive_content t >>= significant 4) _
      (checked-Outcome (All IsByte) (Below (2 ^ 64)) r (primitive_content t) (significant 4)
        (primitive_content-Outcome t r he h) (significant-Outcome 4))
      (λ v r1 e w.
        return-Outcome (λ u. v < 2 ^ 64 → u < 2 ^ 32) (v % 2 ^ 32) r1 e w (λ _. omega arith))
