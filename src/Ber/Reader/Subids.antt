-- ===== src/Ber/Reader/Subids.antt =====
-- `decodeOidContent` of src/BerReader.cpp on any content.
use snmpio.Common.{
  ℕ, zero, suc, ◌+◌, ◌-◌, ◌*◌, ◌%◌, ◌^◌, ◌≤◌, ◌<◌, true, false, not, ◌&&◌, none, some, Option, List,
  [], ◌∷◌, ◌++◌, ltb, ◌==◌, if◌then◌else◌, length, All, All-append, ◌≡◌, ◌≢◌, refl, sym, subst,
  arith, if-holds, Bool-cases, inl, inr,
}
use snmpio.Common.Bytes.{top_bit}
use snmpio.Error.{Errc, oid_too_long}
use snmpio.Oid.{Oid, IsSubid, max_subids, is_encodable}
use snmpio.Oid.Arcs.{Arcs, Arcs-encodable}
use snmpio.Ber.Reader.Oid.{
  Subid, complete, overflow, incomplete, subid_from, unpack, failed, resume, oid_loop,
  decode_oid_content,
}

-- An OID that X.690 can encode, or an error.
abbrev pub IsVerdict : Errc × Option Oid → Type 0
IsVerdict (e, none) = e ≢ Errc.ok
IsVerdict (e, some o) = (e ≡ Errc.ok) × (is_encodable o ≡ true) × All IsSubid o

-- A sub-identifier that is complete has 32 bits, and took an octet at least.
abbrev Within : ℕ → Subid → Type 0
Within n (complete v rest) = (v < 2 ^ 32) × (length rest < n)
Within n overflow = Unit {0}
Within n incomplete = Unit {0}

Within-suc : (n : ℕ) (s : Subid) → Within n s → Within (suc n) s
Within-suc n (complete v rest) h = (h.0, omega (arith, h.1))
Within-suc n overflow h = tt
Within-suc n incomplete h = tt

subid_from-Within : (acc : ℕ) (c : List ℕ) → Within (length c) (subid_from acc c)
unfolding subid_from
subid_from-Within acc [] = tt
subid_from-Within acc (b ∷ rest) =
    let v = acc * 128 % 2 ^ 64 + b % 128 in
    let n = length (b ∷ rest) in
    if-holds (Within n) _ _ (ltb (2 ^ 32 - 1) v) (λ _. tt)
      (λ small.
        if-holds (Within n) _ _ (not (top_bit b)) (λ _. (ground arith, omega arith))
          (λ _. Within-suc (length rest) (subid_from v rest) (subid_from-Within v rest)))

resume-IsVerdict :
    (n : ℕ) (s : Subid) (next : ℕ → List ℕ → Errc × Option Oid)
    → Within n s
    → ((v : ℕ) (rest : List ℕ) → v < 2 ^ 32 → length rest < n → IsVerdict (next v rest))
    → IsVerdict (resume s next)
resume-IsVerdict n (complete v rest) next h k = k v rest h.0 h.1
resume-IsVerdict n overflow next h k = λ e. cc
resume-IsVerdict n incomplete next h k = λ e. cc

small : (n a b : ℕ) → n + 2 ≤ max_subids → a < 2 → b ≤ 39 → Arcs a b n
small n a b hn ha hb = record {
  few = hn;
  first = omega arith;
  second = λ _. hb;
  third = λ e. absurd (omega arith);
}

abbrev Split : ℕ → Type 0
Split v =
    (a : ℕ) × ((b : ℕ) × ((unpack v ≡ a ∷ b ∷ []) × (Arcs a b 0 × ((a < 2 ^ 32) × (b < 2 ^ 32)))))

-- The packed value splits into two arcs that pack again.
unpack-Arcs : (v : ℕ) → v < 2 ^ 32 → Split v
unfolding unpack
unpack-Arcs v h = elim (Bool-cases (ltb v 40)) [
  | inl c ↦
      (0, (v, (rw c, (small 0 0 v (omega arith) (omega arith) (ground arith), (omega arith, h)))))
  | inr c ↦ elim (Bool-cases (ltb v 80)) [
    | inl d ↦ (
      1,
      (
        v - 40,
        (
          rw (c, d),
          (
            small 0 1 (v - 40) (omega arith) (omega arith) (ground arith),
            (omega arith, omega arith),
          ),
        ),
      ),
    )
    | inr d ↦ (
      2,
      (
        v - 80,
        (
          rw (c, d),
          (
            record {
              few = omega arith;
              first = omega arith;
              second = λ l. absurd (omega arith);
              third = λ _. ground arith;
            },
            (omega arith, omega arith),
          ),
        ),
      ),
    )
  ]
]

-- A round behind the first two arcs.
oid_loop-IsVerdict :
    (f a b : ℕ) (rest c : List ℕ)
    → length c ≤ f
    → Arcs a b (length rest)
    → All IsSubid (a ∷ b ∷ rest)
    → IsVerdict (oid_loop f false (a ∷ b ∷ rest) c)
unfolding oid_loop
oid_loop-IsVerdict zero a b rest [] hf h hs = (refl, Arcs-encodable a b rest h, hs)
oid_loop-IsVerdict (suc f) a b rest [] hf h hs = (refl, Arcs-encodable a b rest h, hs)
oid_loop-IsVerdict zero a b rest (x ∷ xs) hf h hs = absurd (omega arith)
oid_loop-IsVerdict (suc f) a b rest (x ∷ xs) hf h hs =
    if-holds IsVerdict _ _ (x % 128 == 0 && top_bit x) (λ _ e. cc)
      (λ _.
        resume-IsVerdict (length (x ∷ xs)) (subid_from 0 (x ∷ xs)) _ (subid_from-Within 0 (x ∷ xs))
          (λ v more hv hm.
            let r = rest ++ v ∷ [] in
            if-holds IsVerdict _ _ (ltb max_subids (length (a ∷ b ∷ r))) (λ _ e. cc)
              (λ room.
                oid_loop-IsVerdict f a b r more (omega arith)
                  (record {
                    few = ground arith;
                    first = h.first;
                    second = h.second;
                    third = h.third;
                  })
                  (hs.0, (hs.1.0, All-append IsSubid rest (v ∷ []) hs.1.1 (hv, tt))))))

first_round :
    (f : ℕ) (x : ℕ) (xs : List ℕ) → length xs ≤ f → IsVerdict (oid_loop (suc f) true [] (x ∷ xs))
unfolding oid_loop
first_round f x xs hf =
    if-holds IsVerdict _ _ (x % 128 == 0 && top_bit x) (λ _ e. cc)
      (λ _.
        resume-IsVerdict (length (x ∷ xs)) (subid_from 0 (x ∷ xs)) _ (subid_from-Within 0 (x ∷ xs))
          (λ v more hv hm.
            let (a, (b, (e, (h, (ha, hb))))) = unpack-Arcs v hv in
            subst
              (λ (o : Oid). IsVerdict (
                if ltb max_subids (length o) then failed oid_too_long else oid_loop f false o more))
              (sym e) (oid_loop-IsVerdict f a b [] more (omega arith) h (ha, (hb, tt)))))

-- Whatever the content, decodeOidContent reports an error and no OID, or no error and an OID of
-- 32-bit sub-identifiers that X.690 can encode.
pub decode_oid_content-IsVerdict : (c : List ℕ) → IsVerdict (decode_oid_content c)
unfolding decode_oid_content
decode_oid_content-IsVerdict [] = λ e. cc
decode_oid_content-IsVerdict (x ∷ xs) = first_round (length xs) x xs (omega arith)
