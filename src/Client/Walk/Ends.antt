-- ===== src/Client/Walk/Ends.antt =====
-- The Walk of src/Client.cpp ends: each round halves `maxRepetitions` or moves on in the order of names.
use snmpio.Common.{
  ℕ, zero, suc, ◌+◌, ◌-◌, ◌^◌, ◌≤◌, ◌<◌, Bool, true, false, ◌&&◌, Option, none, some, List, [], ◌∷◌,
  All, length, ◌≡◌, inl, inr, refl, sym, ap, subst, arith, Bool-cases, Option-cases,
}
use snmpio.Common.Int32.{ℤ, pos, negsuc, pos_part, less_int}
use snmpio.Oid.{Oid, max_subids, IsSubid}
use snmpio.Value.{Varbind}
use snmpio.Pdu.{Pdu}
use snmpio.Client.{Failure, Response}
use snmpio.Client.Exchange.{is_some}
use snmpio.Client.Walk.{
  Requester, BatchHandler, stop_now, walk_request, is_too_big, half, scan, hand_over, take_response,
  handle_reply, walk_loop, do_walk, rounds,
}
use snmpio.Client.Walk.Scan.{scan-cons}
use snmpio.Client.Walk.Rank.{rank, rank-lt, rank_mono}

-- A name of at most `w` sub-identifiers, each below `b - 1`.
abbrev IsBelow : ℕ → ℕ → Oid → Type 0
IsBelow b w o = (length o ≤ w) × All (λ x. x + 2 ≤ b) o

module _ (b w : ℕ) (base_pos : 0 < b) where
  abbrev AreBelow : List Varbind → Type 0
  AreBelow vbs = All (λ vb. IsBelow b w vb.name) vbs

  scan-rank :
      (base current : Oid) (vbs : List Varbind) (done : Bool) (last : Oid) (batch : List Varbind)
      → IsBelow b w current
      → AreBelow vbs
      → scan base current vbs ≡ some (done, last, batch)
      → IsBelow b w last × (rank b w current ≤ rank b w last)
  scan-rank base current [] done last batch n a h =
      let e : current ≡ last = unfold scan in ground arith in
      (subst (IsBelow b w) e n, omega (arith, ap (λ (o : Oid). rank b w o) e))
  scan-rank base current (vb ∷ vbs) done last batch n a h =
      elim (scan-cons base current vb vbs done last batch h) [
        | inl (d, e, f) ↦
            (subst (IsBelow b w) (sym e) n, omega (arith, ap (λ (o : Oid). rank b w o) e))
        | inr (l, v, more, e, f) ↦
            let (k, m) = scan-rank base vb.name vbs done last more a.0 a.1 e in
            (k, omega (arith, m, rank_mono b w current vb.name base_pos n.1 a.0.0 l))
      ]

  scan-moves :
      (base current : Oid) (vb : Varbind) (vbs : List Varbind) (last : Oid) (batch : List Varbind)
      → IsBelow b w current
      → AreBelow (vb ∷ vbs)
      → scan base current (vb ∷ vbs) ≡ some (false, last, batch)
      → IsBelow b w last × (rank b w current < rank b w last)
  scan-moves base current vb vbs last batch n a h =
      elim (scan-cons base current vb vbs false last batch h) [
        | inl (d, e, f) ↦ absurd (cc)
        | inr (l, v, more, e, f) ↦
            let (k, m) = scan-rank base vb.name vbs false last more a.0 a.1 e in
            (k, omega (arith, m, rank_mono b w current vb.name base_pos n.1 a.0.0 l))
      ]

  -- What is left to do.
  abbrev measure : Oid → ℤ → ℕ
  measure current max = b ^ w - rank b w current + pos_part max

  abbrev Returns : {A : Type 0} → Option A → Type 0
  Returns o = is_some o ≡ true

  half-lt : (max : ℤ) → less_int (pos 1) max ≡ true → pos_part (half max) < pos_part max
  half-lt (pos n) h = ground arith
  half-lt (negsuc n) h = absurd (ground arith)

  moved :
      (current last : Oid) (max : ℤ)
      → IsBelow b w current
      → IsBelow b w last
      → rank b w current < rank b w last
      → measure last max < measure current max
  moved current last max n m l = omega (arith, rank-lt b w last base_pos m.1)

  module _ {S : Type 0} (requester : Requester S) (on_batch : BatchHandler S) (Inv : S → Type 0)
      (asks : (pdu : Pdu) (s : S)
        → Inv s
        → Inv (requester.do_request pdu s).0 × AreBelow (requester.do_request pdu s).1.1.varbinds)
      (hands : (batch : List Varbind) (s : S) → Inv s → Inv (on_batch batch s).0) where
    -- The next round returns wherever less is left to do.
    abbrev Continues : (Oid → ℤ → S → Option (S × Option Failure)) → Oid → ℤ → Type 0
    Continues again current max =
        (last : Oid) (max' : ℤ) (s : S)
        → IsBelow b w last
        → Inv s
        → measure last max' < measure current max
        → Returns (again last max' s)

    hand_over-Returns :
        (again : Oid → ℤ → S → Option (S × Option Failure)) (base current : Oid) (max : ℤ) (s : S)
        (vb : Varbind) (vbs : List Varbind) (o : Option (Bool × Oid × List Varbind))
        → IsBelow b w current
        → AreBelow (vb ∷ vbs)
        → Inv s
        → Continues again current max
        → scan base current (vb ∷ vbs) ≡ o
        → Returns (hand_over requester on_batch again max s o)
    unfolding hand_over
    hand_over-Returns again base current max s vb vbs none n a i k e = refl
    hand_over-Returns again base current max s vb vbs (some (true, last, [])) n a i k e = refl
    hand_over-Returns again base current max s vb vbs (some (false, last, [])) n a i k e =
        let (m, l) = scan-moves base current vb vbs last [] n a e in
        k last max s m i (moved current last max n m l)
    hand_over-Returns again base current max s vb vbs (some (true, last, x ∷ xs)) n a i k e =
        elim (Bool-cases (on_batch (x ∷ xs) s).1) [
          | inl c ↦ ground (arith, c)
          | inr c ↦ ground (arith, c)
        ]
    hand_over-Returns again base current max s vb vbs (some (false, last, x ∷ xs)) n a i k e =
        elim (Bool-cases (on_batch (x ∷ xs) s).1) [
          | inl c ↦
              let (m, l) = scan-moves base current vb vbs last (x ∷ xs) n a e in
              let q =
                k last max (on_batch (x ∷ xs) s).0 m (hands (x ∷ xs) s i)
                  (moved current last max n m l) in
              ground (arith, c, q)
          | inr c ↦ ground (arith, c)
        ]

    take_response-Returns :
        (again : Oid → ℤ → S → Option (S × Option Failure)) (base current : Oid) (max : ℤ) (s : S)
        (vbs : List Varbind)
        → IsBelow b w current
        → AreBelow vbs
        → Inv s
        → Continues again current max
        → Returns (take_response requester on_batch again base current max s vbs)
    unfolding take_response
    take_response-Returns again base current max s [] n a i k = refl
    take_response-Returns again base current max s (vb ∷ vbs) n a i k =
        hand_over-Returns again base current max s vb vbs (scan base current (vb ∷ vbs)) n a i k
          refl

    handle_reply-Returns :
        (again : Oid → ℤ → S → Option (S × Option Failure)) (base current : Oid) (max : ℤ) (s : S)
        (ec : Option Failure) (resp : Response)
        → IsBelow b w current
        → AreBelow resp.varbinds
        → Inv s
        → Continues again current max
        → Returns (handle_reply requester on_batch again base current max s ec resp)
    unfolding handle_reply
    handle_reply-Returns again base current max s ec resp n a i k =
        elim (Bool-cases (is_too_big ec && less_int (pos 1) max)) [
          | inl c ↦
              let q = k current (half max) s n i (omega (arith, half-lt max (ground (arith, c)))) in
              ground (arith, c, q)
          | inr c ↦ elim (Option-cases ec) [
            | inr (e, d) ↦ elim (Option-cases (stop_now (requester.cancelled s))) [
              | inl f ↦ ground (arith, c, d, f)
              | inr (x, f) ↦ ground (arith, c, d, f)
            ]
            | inl d ↦ elim (Bool-cases (requester.stopping s)) [
              | inl f ↦ ground (arith, c, d, f)
              | inr f ↦
                  let q = take_response-Returns again base current max s resp.varbinds n a i k in
                  ground (arith, c, d, f, q)
            ]
          ]
        ]

    walk_loop-Returns :
        (n : ℕ) (base current : Oid) (max : ℤ) (s : S)
        → IsBelow b w current
        → Inv s
        → measure current max < n
        → Returns (walk_loop requester on_batch n base current max s)
    unfolding walk_loop
    walk_loop-Returns zero base current max s m i l = absurd (omega arith)
    walk_loop-Returns (suc n) base current max s m i l =
        elim (Option-cases (stop_now (requester.cancelled s))) [
          | inr (x, f) ↦ ground (arith, f)
          | inl f ↦
              let out = requester.do_request (walk_request current max) s in
              let (i1, a) = asks (walk_request current max) s i in
              let q =
                handle_reply-Returns (walk_loop requester on_batch n base) base current max out.0
                  out.1.0 out.1.1 m a i1
                  (λ last max' s' m' i' l'.
                    walk_loop-Returns n base last max' s' m' i' (omega arith)) in
              ground (arith, f, q)
        ]

-- A name as a client holds it.
abbrev pub IsName : Oid → Type 0
IsName o = (length o ≤ max_subids) × All IsSubid o

subids-below : (o : Oid) → All IsSubid o → All (λ x. x + 2 ≤ 2 ^ 32 + 1) o
subids-below [] a = tt
subids-below (x ∷ xs) (h, t) = (omega arith, subids-below xs t)

IsName-IsBelow : (o : Oid) → IsName o → IsBelow (2 ^ 32 + 1) 128 o
IsName-IsBelow o (l, a) = (l, subids-below o a)

AreNames-AreBelow :
    (vbs : List Varbind)
    → All (λ vb. IsName vb.name) vbs
    → All (λ vb. IsBelow (2 ^ 32 + 1) 128 vb.name) vbs
AreNames-AreBelow [] a = tt
AreNames-AreBelow (vb ∷ vbs) (h, t) = (IsName-IsBelow vb.name h, AreNames-AreBelow vbs t)

fits : (p r m : ℕ) → p - r + m < suc (p + m)
fits p r m = omega arith

-- A Walk ends, whatever the Target answers, the signals and the handler do: if the requests keep
-- an invariant of the state under which every Response has names of at most 128 sub-identifiers of
-- 32 bits, the handler keeps it too, and base is such a name, the loop reaches a completion within
-- the rounds that the model gives it.
pub do_walk-some :
    {S : Type 0} (requester : Requester S) (on_batch : BatchHandler S) (Inv : S → Type 0)
    (base : Oid) (max : ℤ) (s : S)
    → ((pdu : Pdu) (s1 : S)
        → Inv s1
        → Inv (requester.do_request pdu s1).0
          × All (λ vb. IsName vb.name) (requester.do_request pdu s1).1.1.varbinds)
    → ((batch : List Varbind) (s1 : S) → Inv s1 → Inv (on_batch batch s1).0)
    → IsName base
    → Inv s
    → (s' : S) × (failure : Option Failure) × (do_walk requester on_batch base max s
        ≡ some (s', failure))
unfolding do_walk
do_walk-some requester on_batch Inv base max s asks hands n i =
    let returned =
      walk_loop-Returns (2 ^ 32 + 1) 128 (omega arith) requester on_batch Inv
        (λ pdu s1 i1. let (i2, a) = asks pdu s1 i1 in (i2, AreNames-AreBelow _ a)) hands
        (rounds max) base base max s (IsName-IsBelow base n) i
        (fits ((2 ^ 32 + 1) ^ 128) _ (pos_part max)) in
    elim (Option-cases (walk_loop requester on_batch (rounds max) base base max s)) [
      | inl e ↦ absurd (cc (e, returned))
      | inr ((s', failure), e) ↦ (s', failure, e)
    ]
