-- ===== src/Oid/Order.antt =====
-- The order and the subtrees of include/snmpio/Oid.hpp and src/Oid.cpp.
use snmpio.Common.{
  ℕ, ◌<◌, true, false, [], ◌∷◌, ltb, ◌==◌, length, Bool-cases, ==_iff, ltb→lt, ◌≡◌, refl, sym, ap,
  ◌∙◌, ◌⊎◌, inl, inr, arith, lt→ltb, le→ltb,
}
use snmpio.Oid.{Oid, same_until, is_prefix_of, child, less}

less-step_lt : (x y : ℕ) (xs ys : Oid) → x < y → less (x ∷ xs) (y ∷ ys) ≡ true
unfolding less
less-step_lt x y xs ys h = rw (lt→ltb x y h) refl

less-step_eq : (x : ℕ) (xs ys : Oid) → less (x ∷ xs) (x ∷ ys) ≡ less xs ys
unfolding less
less-step_eq x xs ys = rw (le→ltb x x (omega arith)) refl

-- What makes one OID less than another at their first sub-identifiers.
pub less-cases :
    (x y : ℕ) (xs ys : Oid)
    → less (x ∷ xs) (y ∷ ys) ≡ true
    → (x < y) ⊎ ((x ≡ y) × (less xs ys ≡ true))
unfolding less
less-cases x y xs ys h = elim (Bool-cases (ltb x y)) [
  | inl c ↦ inl (ltb→lt x y c)
  | inr c ↦ elim (Bool-cases (ltb y x)) [
    | inl d ↦ absurd (cc (rw (c, d) at h))
    | inr d ↦ inr (ground arith, rw (c, d) at h)
  ]
]

pub less-nil : (o : Oid) → less o [] ≡ false
unfolding less
less-nil [] = refl
less-nil (x ∷ xs) = refl

less-cons : (y : ℕ) (ys : Oid) → less [] (y ∷ ys) ≡ true
unfolding less
less-cons y ys = refl

-- The order of OIDs is transitive.
pub less_trans : (a b c : Oid) → less a b ≡ true → less b c ≡ true → less a c ≡ true
less_trans a b [] h k = absurd (cc (less-nil b, k))
less_trans a [] (z ∷ zs) h k = absurd (cc (less-nil a, h))
less_trans [] (y ∷ ys) (z ∷ zs) h k = less-cons z zs
less_trans (x ∷ xs) (y ∷ ys) (z ∷ zs) h k = elim (less-cases x y xs ys h) [
  | inl p ↦ elim (less-cases y z ys zs k) [
    | inl q ↦ less-step_lt x z xs zs (omega arith)
    | inr q ↦ less-step_lt x z xs zs (omega (arith, q.0))
  ]
  | inr p ↦ elim (less-cases y z ys zs k) [
    | inl q ↦ less-step_lt x z xs zs (omega (arith, p.0))
    | inr q ↦
        ap (λ (n : ℕ). less (n ∷ xs) (z ∷ zs)) (p.0 ∙ q.0)
        ∙ less-step_eq z xs zs
        ∙ less_trans xs ys zs p.1 q.1
  ]
]

-- The comparison of the sizes is one that the loop would make.
longer : (o other : Oid) → ltb (length other) (length o) ≡ true → same_until o other ≡ false
unfolding same_until
longer [] other h = absurd (ground arith)
longer (x ∷ xs) [] h = refl
longer (x ∷ xs) (y ∷ ys) h = elim (Bool-cases (x == y)) [
  | inl c ↦ rw c (longer xs ys (ground arith))
  | inr c ↦ rw c refl
]

prefix_loop : (o other : Oid) → is_prefix_of o other ≡ same_until o other
unfolding is_prefix_of
prefix_loop o other = elim (Bool-cases (ltb (length other) (length o))) [
  | inl c ↦ rw c (sym (longer o other c))
  | inr c ↦ rw c refl
]

same_until-cases :
    (x y : ℕ) (xs ys : Oid)
    → same_until (x ∷ xs) (y ∷ ys) ≡ true
    → (x ≡ y) × (same_until xs ys ≡ true)
unfolding same_until
same_until-cases x y xs ys h = elim (Bool-cases (x == y)) [
  | inl c ↦ ((==_iff x y).0 c, rw c at h)
  | inr c ↦ absurd (cc (rw c at h))
]

same_until-step :
    (x : ℕ) (xs ys : Oid) → same_until xs ys ≡ true → same_until (x ∷ xs) (x ∷ ys) ≡ true
unfolding same_until
same_until-step x xs ys h = rw ((==_iff x x).1 refl) h

same_until-nil : (x : ℕ) (xs : Oid) → same_until (x ∷ xs) [] ≡ false
unfolding same_until
same_until-nil x xs = refl

between :
    (p a b c : Oid)
    → same_until p a ≡ true
    → same_until p c ≡ true
    → less a b ≡ true
    → less b c ≡ true
    → same_until p b ≡ true
between [] a b c ha hc h k = unfold same_until in refl
between (x ∷ p) [] b c ha hc h k = absurd (cc (same_until-nil x p, ha))
between (x ∷ p) (y ∷ a) b [] ha hc h k = absurd (cc (same_until-nil x p, hc))
between (x ∷ p) (y ∷ a) [] (z ∷ c) ha hc h k = absurd (cc (less-nil (y ∷ a), h))
between (x ∷ p) (y ∷ a) (w ∷ b) (z ∷ c) ha hc h k =
    let (ea, ra) = same_until-cases x y p a ha in
    let (ec, rc) = same_until-cases x z p c hc in
    elim (less-cases y w a b h) [
      | inl q ↦ elim (less-cases w z b c k) [
        | inl r ↦ absurd (omega (arith, ea, ec))
        | inr r ↦ absurd (omega (arith, ea, ec, r.0))
      ]
      | inr q ↦ elim (less-cases w z b c k) [
        | inl r ↦ absurd (omega (arith, ea, ec, q.0))
        | inr r ↦
            ap (λ (n : ℕ). same_until (x ∷ p) (n ∷ b)) (sym (ea ∙ q.0))
            ∙ same_until-step x p b (between p a b c ra rc q.1 r.1)
      ]
    ]

-- A subtree is an interval of the order: an OID that lies strictly between two OIDs at or beneath
-- a base is beneath that base. A walk in the order therefore meets the subtree in one piece.
pub is_prefix_of-less :
    (base a b c : Oid)
    → is_prefix_of base a ≡ true
    → is_prefix_of base c ≡ true
    → less a b ≡ true
    → less b c ≡ true
    → is_prefix_of base b ≡ true
is_prefix_of-less base a b c ha hc h k =
    prefix_loop base b
    ∙ between base a b c (sym (prefix_loop base a) ∙ ha) (sym (prefix_loop base c) ∙ hc) h k

child-less : (o : Oid) (subid : ℕ) → less o (child o subid) ≡ true
child-less [] subid = less-cons subid []
child-less (x ∷ xs) subid = less-step_eq x xs (child xs subid) ∙ child-less xs subid

child-same_until : (o : Oid) (subid : ℕ) → same_until o (child o subid) ≡ true
child-same_until [] subid = unfold same_until in refl
child-same_until (x ∷ xs) subid = same_until-step x xs (child xs subid) (child-same_until xs subid)

-- A child lies in the subtree of its parent and behind it in the order.
pub is_prefix_of-child :
    (o : Oid) (subid : ℕ)
    → (is_prefix_of o (child o subid) ≡ true) × (less o (child o subid) ≡ true)
is_prefix_of-child o subid =
    (prefix_loop o (child o subid) ∙ child-same_until o subid, child-less o subid)
