-- ===== src/Common/Map.antt =====
-- `std::map` and `std::unordered_map` as functions from keys, and the equality of the keys.
use snmpio.Common.Tests.{if◌then◌else◌, ◌==◌, ==_iff, Bool-cases}
use Prim.Native.Nat.{ℕ}
use mathlib.Core.Path.{◌≡◌, refl, sym, ap, ◌∙◌}
use mathlib.Core.Logic.{◌↔◌, ◌≢◌, inl, inr}
use mathlib.Core.Bool.{Bool, true, false}
use mathlib.Core.Option.{Option, none, some}
use mathlib.Core.List.{List, [], ◌∷◌}
use native.Mathlib.Omega.{arith}

pub record Key {ℓ} (K : Type ℓ) : Type ℓ where
  pub same : K → K → Bool
  pub same_iff : (a b : K) → (same a b ≡ true) ↔ (a ≡ b)

abbrev pub Map {ℓ κ} : Type ℓ → Type κ → Type (ℓ ⊔ κ)
Map K V = K → Option V

module _ {ℓ κ} {K : Type ℓ} {V : Type κ} ⦃key : Key K⦄ where
  -- `m[k] = v`, and with `none` the removal of `k`.
  abbrev pub update : K → Option V → Map K V → Map K V
  update k v m j = if key.same j k then v else m j

  -- `m.emplace(k, v)`: an entry that is there stays.
  abbrev pub emplace : K → V → Map K V → Map K V
  emplace k v m = elim (m k) [ none ↦ update k (some v) m | some w ↦ m ]

instance abbrev pub number_key : Key ℕ
number_key = record { same = ◌==◌; same_iff = ==_iff }

unfoldable pub same_octets : List ℕ → List ℕ → Bool
same_octets [] [] = true
same_octets (x ∷ xs) (y ∷ ys) = if x == y then same_octets xs ys else false
same_octets _ _ = false

pub same_octets_refl : (xs : List ℕ) → same_octets xs xs ≡ true
unfolding same_octets
same_octets_refl [] = refl
same_octets_refl (x ∷ xs) = ground (arith, same_octets_refl xs)

pub same_octets→eq : (xs ys : List ℕ) → same_octets xs ys ≡ true → xs ≡ ys
unfolding same_octets
same_octets→eq [] [] h = refl
same_octets→eq [] (y ∷ ys) h = cc
same_octets→eq (x ∷ xs) [] h = cc
same_octets→eq (x ∷ xs) (y ∷ ys) h = ground (arith, same_octets→eq xs ys)

pub same_octets_iff : (xs ys : List ℕ) → (same_octets xs ys ≡ true) ↔ (xs ≡ ys)
same_octets_iff xs ys = (
  same_octets→eq xs ys,
  λ e. ap (λ (zs : List ℕ). same_octets xs zs) (sym e) ∙ same_octets_refl xs,
)

instance abbrev pub octets_key : Key (List ℕ)
octets_key = record { same = same_octets; same_iff = same_octets_iff }

pub same_refl {ℓ} : {K : Type ℓ} ⦃key : Key K⦄ (k : K) → key.same k k ≡ true
same_refl ⦃key⦄ k = (key.same_iff k k).1 refl

pub same-false {ℓ} : {K : Type ℓ} ⦃key : Key K⦄ (j k : K) → j ≢ k → key.same j k ≡ false
same-false ⦃key⦄ j k h = elim (Bool-cases (key.same j k)) [
  | inl e ↦ absurd (h ((key.same_iff j k).0 e))
  | inr e ↦ e
]
