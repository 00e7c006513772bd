-- ===== src/Common/Bytes.antt =====
-- Octets, the masks of the codec as arithmetic, and big-endian numbers.
use snmpio.Common.Tests.{◌==◌}
use snmpio.Common.Lists.{length, All}
use Prim.Native.Nat.{ℕ, zero, suc, ◌+◌, ◌*◌, ◌/◌, ◌%◌, ◌^◌, ◌≤◌, ◌<◌}
use mathlib.Core.Path.{◌≡◌, refl, ap, ◌∙◌}
use mathlib.Core.Bool.{Bool}
use native.Mathlib.Nat.{div-div-eq-div-mul, mul_comm, mod-eq_of_lt}
use mathlib.Core.List.{List, [], ◌∷◌}
use native.Mathlib.Omega.{arith}
use native.Mathlib.Numerals.{towards_suc}

abbrev pub IsByte : ℕ → Type 0
IsByte b = b < 256

-- `b & 0x80` is set.
abbrev pub top_bit : ℕ → Bool
top_bit b = b / 128 % 2 == 1

-- `n >> k`
abbrev pub shr : ℕ → ℕ → ℕ
shr n k = n / 2 ^ k

-- The octets `(n >> (i * 8)) & 0xFF` for i = k - 1 down to 0.
unfoldable pub bytes_be : ℕ → ℕ → List ℕ
bytes_be zero n = []
bytes_be (suc k) n = (shr n (k * 8) % 256) ∷ bytes_be k n

pub length-bytes_be : (k n : ℕ) → length (bytes_be k n) ≡ k
unfolding bytes_be
length-bytes_be zero n = refl
length-bytes_be (suc k) n = ap suc (length-bytes_be k n)

-- `acc = (acc << 8) | b` in a `w`-bit unsigned, over a run of octets.
unfoldable pub fold_octets : ℕ → ℕ → List ℕ → ℕ
fold_octets w acc [] = acc
fold_octets w acc (b ∷ bs) = fold_octets w (acc * 256 % 2 ^ w + b) bs

pow_eight : (s : ℕ) → 2 ^ (s + 8) ≡ 2 ^ s * 256
pow_eight s = simp towards_suc (omega arith)

pub pow_octet : (k : ℕ) → 2 ^ (suc k * 8) ≡ 2 ^ (k * 8) * 256
pow_octet k = ap (λ (t : ℕ). 2 ^ t) (suc_octet k) ∙ pow_eight (k * 8)
  where
    suc_octet : (k : ℕ) → suc k * 8 ≡ k * 8 + 8
    suc_octet k = omega arith

pub shr-shr_octet : (n k : ℕ) → shr (shr n 8) (k * 8) ≡ shr n (suc k * 8)
shr-shr_octet n k =
    rw (pow_octet k, div-div-eq-div-mul n 256 (2 ^ (k * 8)), mul_comm (2 ^ (k * 8)) 256)

-- Shifting one octet fewer takes in one octet more.
pub shr_octet : (n k : ℕ) → shr n (suc k * 8) * 256 + shr n (k * 8) % 256 ≡ shr n (k * 8)
shr_octet n k = rw (pow_octet k, ← div-div-eq-div-mul n (2 ^ (k * 8)) 256) (omega arith)

pow_seven : (s : ℕ) → 2 ^ (s + 7) ≡ 2 ^ s * 128
pow_seven s = simp towards_suc (omega arith)

-- The same for the seven-bit groups of a sub-identifier.
pub pow_group : (k : ℕ) → 2 ^ (suc k * 7) ≡ 2 ^ (k * 7) * 128
pow_group k = ap (λ (t : ℕ). 2 ^ t) (suc_group k) ∙ pow_seven (k * 7)
  where
    suc_group : (k : ℕ) → suc k * 7 ≡ k * 7 + 7
    suc_group k = omega arith

pub shr-shr_group : (n k : ℕ) → shr (shr n 7) (k * 7) ≡ shr n (suc k * 7)
shr-shr_group n k =
    rw (pow_group k, div-div-eq-div-mul n 128 (2 ^ (k * 7)), mul_comm (2 ^ (k * 7)) 128)

pub shr_group : (n k : ℕ) → shr n (suc k * 7) * 128 + shr n (k * 7) % 128 ≡ shr n (k * 7)
shr_group n k = rw (pow_group k, ← div-div-eq-div-mul n (2 ^ (k * 7)) 128) (omega arith)

pub shr-le : (n k : ℕ) → shr n k ≤ n
shr-le n k = omega arith

step :
    (w k n : ℕ) → n < 2 ^ w → shr n (suc k * 8) * 256 % 2 ^ w + shr n (k * 8) % 256 ≡ shr n (k * 8)
step w k n h = rw (mod-eq_of_lt fits) (shr_octet n k)
  where
    fits : shr n (suc k * 8) * 256 < 2 ^ w
    fits = omega (arith, shr_octet n k, shr-le n (k * 8))

-- A number is read back from its big-endian octets, as long as it fits the accumulator.
pub fold_octets-bytes_be :
    (w k n : ℕ) → n < 2 ^ w → fold_octets w (shr n (k * 8)) (bytes_be k n) ≡ n
unfolding fold_octets bytes_be
fold_octets-bytes_be w zero n h = omega arith
fold_octets-bytes_be w (suc k) n h =
    ap (λ (t : ℕ). fold_octets w t (bytes_be k n)) (step w k n h) ∙ fold_octets-bytes_be w k n h

pub bytes_be-IsByte : (k n : ℕ) → All IsByte (bytes_be k n)
unfolding bytes_be
bytes_be-IsByte zero n = tt
bytes_be-IsByte (suc k) n = (omega arith, bytes_be-IsByte k n)

-- Four octets fill a 32-bit accumulator whatever stood in it.
pub fold_octets_four : (acc n : ℕ) → n < 2 ^ 32 → fold_octets 32 acc (bytes_be 4 n) ≡ n
unfolding fold_octets bytes_be
fold_octets_four acc n h = omega arith

-- The accumulator keeps to its width.
pub fold_octets-lt32 :
    (acc : ℕ) (bytes : List ℕ) → acc < 2 ^ 32 → All IsByte bytes → fold_octets 32 acc bytes < 2 ^ 32
unfolding fold_octets
fold_octets-lt32 acc [] h hb = h
fold_octets-lt32 acc (b ∷ bs) h hb =
    fold_octets-lt32 (acc * 256 % 2 ^ 32 + b) bs (omega (arith, hb.0)) hb.1

pub fold_octets-lt64 :
    (acc : ℕ) (bytes : List ℕ) → acc < 2 ^ 64 → All IsByte bytes → fold_octets 64 acc bytes < 2 ^ 64
unfolding fold_octets
fold_octets-lt64 acc [] h hb = h
fold_octets-lt64 acc (b ∷ bs) h hb =
    fold_octets-lt64 (acc * 256 % 2 ^ 64 + b) bs (omega (arith, hb.0)) hb.1
