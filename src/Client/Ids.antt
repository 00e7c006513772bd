-- ===== src/Client/Ids.antt =====
-- `nextId` of src/Client.cpp: the numbers of requests and of SNMPv3 messages.
use snmpio.Common.{
  ℕ, zero, suc, ◌+◌, ◌-◌, ◌%◌, ◌^◌, ◌≤◌, ◌<◌, ◌==◌, ◌≢◌, if◌then◌else◌, ◌≡◌, refl, ap, sym, ◌∙◌,
  arith, Bool-cases, inl, inr,
}
use snmpio.Common.Int32.{ℤ, pos, pos_part}
use snmpio.Client.{Impl}

abbrev pub int32_max : ℕ
int32_max = 2 ^ 31 - 1

unfoldable pub succ_id : ℤ → ℤ
succ_id (pos n) = if n == int32_max then pos 1 else pos (n + 1)
succ_id n = n

-- The state, and the number that was current.
unfoldable pub next_id : Impl → Impl × ℤ
unfolding succ_id
next_id s = (record s { next_id = succ_id s.next_id }, s.next_id)

-- The ids that are in use lie between 1 and the largest 32-bit number.
abbrev pub IsId : ℤ → Type 0
IsId n = (k : ℕ) × (n ≡ pos k) × (1 ≤ k) × (k ≤ int32_max)

-- The number that the call after `k` others returns.
unfoldable pub nth_id : ℕ → Impl → ℤ
nth_id zero s = (next_id s).1
nth_id (suc k) s = nth_id k (next_id s).0

nth : ℕ → ℤ → ℤ
nth zero n = n
nth (suc k) n = nth k (succ_id n)

nth_id-nth : (k : ℕ) (s : Impl) → nth_id k s ≡ nth k s.next_id
unfolding nth_id nth next_id
nth_id-nth zero s = refl
nth_id-nth (suc k) s = nth_id-nth k (record s { next_id = succ_id s.next_id })

nth-pos : (k m : ℕ) → m < int32_max → nth k (pos (m + 1)) ≡ pos ((m + k) % int32_max + 1)
unfolding nth succ_id
nth-pos zero m h = ground arith
nth-pos (suc k) m h = elim (Bool-cases (m + 1 == int32_max)) [
  | inl c ↦ rw c (nth-pos k 0 (omega arith) ∙ ap pos (ground arith))
  | inr c ↦ rw c (nth-pos k (m + 1) (ground arith) ∙ ap pos (ground arith))
]

nth_id-pos :
    (k m : ℕ) (s : Impl)
    → m < int32_max
    → s.next_id ≡ pos (m + 1)
    → nth_id k s ≡ pos ((m + k) % int32_max + 1)
nth_id-pos k m s h e = nth_id-nth k s ∙ ap (λ (n : ℤ). nth k n) e ∙ nth-pos k m h

-- Every number that the client gives out is between 1 and 2^31 - 1.
pub nth_id-IsId : (k : ℕ) (s : Impl) → IsId s.next_id → IsId (nth_id k s)
nth_id-IsId k s (m, e, low, high) = (
  (m - 1 + k) % int32_max + 1,
  nth_id-pos k (m - 1) s (omega arith) (e ∙ ap pos (omega arith)),
  omega arith,
  omega arith,
)

pos-eq : (a b : ℕ) → pos a ≡ pos b → a ≡ b
pos-eq a b h = ap pos_part h

-- From a number between 1 and 2^31 - 1, two calls of nextId fewer than 2^31 - 1 calls apart return
-- different numbers.
pub nth_id_unique :
    (i j : ℕ) (s : Impl) → IsId s.next_id → i < j → j - i < int32_max → nth_id i s ≢ nth_id j s
nth_id_unique i j s (m, e, low, high) h k eq =
    let start : s.next_id ≡ pos (m - 1 + 1) = e ∙ ap pos (omega arith) in
    let same : (m - 1 + i) % int32_max + 1 ≡ (m - 1 + j) % int32_max + 1 = pos-eq _ _ (
      sym (nth_id-pos i (m - 1) s (omega arith) start)
      ∙ eq
      ∙ nth_id-pos j (m - 1) s (omega arith) start) in
    omega (arith, same)
