-- ===== src/Oid/Arcs.antt =====
-- `Oid::isEncodable` of src/Oid.cpp as conditions on the arcs.
use snmpio.Common.{ℕ, zero, suc, ◌+◌, ◌^◌, ◌≤◌, ◌<◌, true, List, ◌∷◌, length, ◌≡◌, refl, arith}
use snmpio.Oid.{max_subids, is_encodable}

-- What `isEncodable` lets through.
pub record Arcs (a b n : ℕ) : Type 0 where
  pub few : n + 2 ≤ max_subids
  pub first : a ≤ 2
  pub second : a < 2 → b ≤ 39
  pub third : a ≡ 2 → b + 80 < 2 ^ 32

pub encodable-Arcs :
    (a b : ℕ) (rest : List ℕ) → is_encodable (a ∷ b ∷ rest) ≡ true → Arcs a b (length rest)
unfolding is_encodable
encodable-Arcs a b rest h = record {
  few = ground arith;
  first = ground arith;
  second = λ l. ground arith;
  third = λ l. ground arith;
}

pub Arcs-encodable :
    (a b : ℕ) (rest : List ℕ) → Arcs a b (length rest) → is_encodable (a ∷ b ∷ rest) ≡ true
unfolding is_encodable
Arcs-encodable zero b rest h = ground (arith, h.few, h.second (omega arith))
Arcs-encodable (suc zero) b rest h = ground (arith, h.few, h.second (omega arith))
Arcs-encodable (suc (suc zero)) b rest h = ground (arith, h.few, h.third refl)
Arcs-encodable (suc (suc (suc a))) b rest h = absurd (omega (arith, h.first))
