-- ===== src/Ber/Reader/Oid.antt =====
-- `decodeOidContent` of src/BerReader.cpp.
use snmpio.Common.{
  ℕ, zero, suc, ◌+◌, ◌-◌, ◌*◌, ◌%◌, ◌^◌, Bool, true, false, not, Option, none, some, List, [], ◌∷◌,
  ◌++◌, ◌&&◌, ltb, ◌==◌, if◌then◌else◌, length,
}
use snmpio.Common.Bytes.{top_bit}
use snmpio.Error.{
  Errc, oid_empty, oid_too_long, oid_subid_overflow, oid_non_minimal, oid_truncated_subid,
}
use snmpio.Oid.{Oid, max_subids}

-- The inner loop: one sub-identifier, or the fault. The accumulator is 64 bits wide.
pub data Subid : Type 0 where
  complete : ℕ → List ℕ → Subid
  overflow : Subid
  incomplete : Subid

unfoldable pub subid_from : ℕ → List ℕ → Subid
subid_from subid [] = incomplete
subid_from subid (b ∷ rest) =
    let subid' = subid * 128 % 2 ^ 64 + b % 128 in
    let more = subid_from subid' rest in
    if ltb (2 ^ 32 - 1) subid'
    then overflow
    else if not (top_bit b)
    then complete subid' rest
    else more

-- X.690 8.19.4 in reverse: the packed value splits back into two arcs.
unfoldable pub unpack : ℕ → Oid
unpack subid =
    if ltb subid 40
    then 0 ∷ subid ∷ []
    else if ltb subid 80
    then 1 ∷ (subid - 40) ∷ []
    else 2 ∷ (subid - 80) ∷ []

abbrev pub push_subid : Bool → Oid → ℕ → Oid
push_subid first result subid = if first then unpack subid else result ++ subid ∷ []

abbrev pub failed : Errc → Errc × Option Oid
failed e = (e, none)

abbrev pub resume : Subid → (ℕ → List ℕ → Errc × Option Oid) → Errc × Option Oid
resume overflow next = failed oid_subid_overflow
resume incomplete next = failed oid_truncated_subid
resume (complete subid rest) next = next subid rest

-- The outer loop. A round takes an octet at least, so a round for each is enough.
unfoldable pub oid_loop : ℕ → Bool → Oid → List ℕ → Errc × Option Oid
oid_loop fuel first result [] = (Errc.ok, some result)
oid_loop zero first result (b ∷ bs) = (Errc.ok, none)
oid_loop (suc f) first result (b ∷ bs) =
    if b % 128 == 0 && top_bit b
    then failed oid_non_minimal
    else resume (subid_from 0 (b ∷ bs)) (λ subid rest.
      let result' = push_subid first result subid in
      let more = oid_loop f false result' rest in
      if ltb max_subids (length result') then failed oid_too_long else more)

unfoldable pub decode_oid_content : List ℕ → Errc × Option Oid
decode_oid_content [] = failed oid_empty
decode_oid_content (b ∷ bs) = oid_loop (length (b ∷ bs)) true [] (b ∷ bs)
