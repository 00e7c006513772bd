-- ===== src/Client/Walk/Rank.antt =====
-- The names of src/Oid.cpp as numbers, in their order.
use snmpio.Common.{
  ℕ, zero, suc, ◌+◌, ◌*◌, ◌^◌, ◌≤◌, ◌<◌, true, [], ◌∷◌, All, length, ◌≡◌, inl, inr, arith,
}
use native.Mathlib.Numerals.{unary_clauses}
use native.Mathlib.Nat.{mul_comm, mul-le-mul_right}
use snmpio.Oid.{Oid, less}
use snmpio.Oid.Order.{less-cases, less-nil}

-- The number of a name of at most `w` sub-identifiers below `b - 1`, in the base `b`.
pub rank : ℕ → ℕ → Oid → ℕ
rank b zero o = 0
rank b (suc w) [] = 0
rank b (suc w) (x ∷ xs) = (x + 1) * b ^ w + rank b w xs

split : (x p : ℕ) → (x + 2) * p ≡ (x + 1) * p + p
split x p = grind arith

step_bound : (b p x r : ℕ) → x + 2 ≤ b → r < p → (x + 1) * p + r < b * p
step_bound b p x r h k =
    let le : (x + 2) * p ≤ b * p = mul-le-mul_right p h in omega (arith, le, split x p)

pow-suc : (b w : ℕ) → b ^ suc w ≡ b * b ^ w
pow-suc b w = simp unary_clauses (mul_comm (b ^ w) b)

one_pos : 0 < 1
one_pos = omega arith

mul_pos : (a b : ℕ) → 0 < a → 0 < b → 0 < a * b
mul_pos a b h k = grind arith

pow_pos : (b w : ℕ) → 0 < b → 0 < b ^ w
pow_pos b zero h = simp unary_clauses one_pos
pow_pos b (suc w) h = rw (pow-suc b w) (mul_pos b (b ^ w) h (pow_pos b w h))

pub rank-lt : (b w : ℕ) (o : Oid) → 0 < b → All (λ x. x + 2 ≤ b) o → rank b w o < b ^ w
unfolding rank
rank-lt b zero o h a = simp unary_clauses one_pos
rank-lt b (suc w) [] h a = pow_pos b (suc w) h
rank-lt b (suc w) (x ∷ xs) h (a, t) =
    rw (pow-suc b w) (step_bound b (b ^ w) x (rank b w xs) a (rank-lt b w xs h t))

below : (b w y r : ℕ) → 0 < b → 0 < (y + 1) * b ^ w + r
below b w y r h = omega (arith, mul_pos (y + 1) (b ^ w) (omega arith) (pow_pos b w h))

shift : (x y : ℕ) → x < y → x + 2 ≤ y + 1
shift x y h = omega arith

first_differs : (p x y r q : ℕ) → x < y → r < p → (x + 1) * p + r < (y + 1) * p + q
first_differs p x y r q h k =
    let le : (x + 2) * p ≤ (y + 1) * p = mul-le-mul_right p (shift x y h) in
    omega (arith, le, split x p)

pub rank_mono :
    (b w : ℕ) (o u : Oid)
    → 0 < b
    → All (λ x. x + 2 ≤ b) o
    → length u ≤ w
    → less o u ≡ true
    → rank b w o < rank b w u
unfolding rank
rank_mono b w o [] h a l k = absurd (cc (less-nil o, k))
rank_mono b zero o (y ∷ ys) h a l k = absurd (omega arith)
rank_mono b (suc w) [] (y ∷ ys) h a l k = below b w y (rank b w ys) h
rank_mono b (suc w) (x ∷ xs) (y ∷ ys) h (a, t) l k = elim (less-cases x y xs ys k) [
  | inl p ↦ first_differs (b ^ w) x y (rank b w xs) (rank b w ys) p (rank-lt b w xs h t)
  | inr (e, q) ↦ rw e (omega (arith, rank_mono b w xs ys h t (omega arith) q))
]
