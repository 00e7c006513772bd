-- ===== src/Oid.antt =====
-- include/snmpio/Oid.hpp and src/Oid.cpp: an object identifier is a sequence of 32-bit
-- sub-identifiers, whether or not X.690 can encode it.
pub mod Arcs
pub mod Order
pub mod Text
use snmpio.Common.{
  ℕ, ◌-◌, ◌^◌, ◌<◌, Bool, true, false, not, ◌&&◌, List, [], ◌∷◌, ◌++◌, ltb, ◌==◌, if◌then◌else◌,
  length, get_or,
}

abbrev pub Oid : Type 0
Oid = List ℕ

abbrev pub IsSubid : ℕ → Type 0
IsSubid n = n < 2 ^ 32

abbrev pub max_subids : ℕ
max_subids = 128

unfoldable pub is_encodable : Oid → Bool
is_encodable o =
    if ltb (length o) 2
    then false
    else if ltb max_subids (length o)
    then false
    else if ltb 2 (get_or o 0 0)
    then false
    else if ltb (get_or o 0 0) 2 && ltb 39 (get_or o 1 0)
    then false
    else if get_or o 0 0 == 2 && ltb (2 ^ 32 - 1 - 80) (get_or o 1 0)
    then false
    else true

-- The loop over the sub-identifiers of the shorter OID.
unfoldable pub same_until : Oid → Oid → Bool
same_until [] o = true
same_until (x ∷ xs) [] = false
same_until (x ∷ xs) (y ∷ ys) = if not (x == y) then false else same_until xs ys

unfoldable pub is_prefix_of : Oid → Oid → Bool
is_prefix_of o other = if ltb (length other) (length o) then false else same_until o other

abbrev pub child : Oid → ℕ → Oid
child o subid = o ++ subid ∷ []

-- `operator<` of the lexicographic order on the sub-identifiers.
unfoldable pub less : Oid → Oid → Bool
less o [] = false
less [] (y ∷ ys) = true
less (x ∷ xs) (y ∷ ys) = if ltb x y then true else if ltb y x then false else less xs ys
