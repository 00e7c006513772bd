-- ===== src/Client/Walk/Ordered.antt =====
-- What `doWalkCollect` of src/Client.cpp collects: the names of a subtree, each greater than the last.
use snmpio.Common.{
  ℕ, zero, suc, Bool, true, false, Option, none, some, List, [], ◌∷◌, ◌++◌, All, All-append, ◌≡◌,
  inl, inr, refl, sym, ap, ◌∙◌, subst, arith, Option-cases,
}
use snmpio.Common.Int32.{ℤ}
use snmpio.Oid.{Oid, less}
use snmpio.Value.{Varbind}
use snmpio.Client.{Failure, Response, library, agent, aborted, socket}
use snmpio.Client.Walk.{
  Requester, stop_now, walk_request, half, scan, hand_over, take_response, handle_reply, walk_loop,
  do_walk, rounds, collecting, collect, kept, collect_result, do_walk_collect,
}
use snmpio.Client.Walk.Scan.{IsBeneath, scan-cons, handle_reply-cases}

-- Each name is greater than the one before it, the first than a given one.
abbrev pub Increasing : Oid → List Varbind → Type 0
Increasing from [] = Unit {0}
Increasing from (vb ∷ vbs) = (less from vb.name ≡ true) × Increasing vb.name vbs

abbrev last_of : Oid → List Varbind → Oid
last_of from [] = from
last_of from (vb ∷ vbs) = last_of vb.name vbs

Increasing-append :
    (from : Oid) (xs ys : List Varbind)
    → Increasing from xs
    → Increasing (last_of from xs) ys
    → Increasing from (xs ++ ys)
Increasing-append from [] ys h k = k
Increasing-append from (x ∷ xs) ys h k = (h.0, Increasing-append x.name xs ys h.1 k)

last_of-append :
    (from : Oid) (xs ys : List Varbind) → last_of from (xs ++ ys) ≡ last_of (last_of from xs) ys
last_of-append from [] ys = refl
last_of-append from (x ∷ xs) ys = last_of-append x.name xs ys

-- What a scan found follows the last name.
abbrev IsBatch : Oid → Oid → Oid → List Varbind → Type 0
IsBatch base current last batch =
    Increasing current batch × All (IsBeneath base) batch × (last ≡ last_of current batch)

scan-IsBatch :
    (base current : Oid) (vbs : List Varbind) (done : Bool) (last : Oid) (batch : List Varbind)
    → scan base current vbs ≡ some (done, last, batch)
    → IsBatch base current last batch
scan-IsBatch base current [] done last batch h =
    let e : (current ≡ last) × (batch ≡ []) = unfold scan in ground arith in
    subst (IsBatch base current last) (sym e.1) (tt, tt, sym e.0)
scan-IsBatch base current (vb ∷ vbs) done last batch h =
    elim (scan-cons base current vb vbs done last batch h) [
      | inl (d, e, f) ↦ subst (IsBatch base current last) (sym f) (tt, tt, e)
      | inr (l, v, more, e, f) ↦
          let (inc, ben, q) = scan-IsBatch base vb.name vbs done last more e in
          subst (IsBatch base current last) (sym f) ((l, inc), (v, ben), q)
    ]

-- What is collected at any time.
abbrev pub IsOrdered : Oid → List Varbind → Type 0
IsOrdered base collected = Increasing base collected × All (IsBeneath base) collected

IsOrdered-append :
    (base current last : Oid) (collected batch : List Varbind)
    → IsOrdered base collected
    → current ≡ last_of base collected
    → IsBatch base current last batch
    → IsOrdered base (collected ++ batch) × (last ≡ last_of base (collected ++ batch))
IsOrdered-append base current last collected batch (inc, ben) e (inc2, ben2, q) = (
  (
    Increasing-append base collected batch inc (subst (λ (o : Oid). Increasing o batch) e inc2),
    All-append (IsBeneath base) collected batch ben ben2,
  ),
  q ∙ ap (λ (o : Oid). last_of o batch) e ∙ sym (last_of-append base collected batch),
)

module _ {S : Type 0} (q : Requester S) where
  abbrev Outcome : Type 0
  Outcome = Option ((S × List Varbind) × Option Failure)

  -- A Walk that is over has collected in order.
  abbrev IsSound : Oid → Outcome → Type 0
  IsSound base none = Unit {0}
  IsSound base (some ((s, collected), ec)) = IsOrdered base collected

  abbrev Keeps : Oid → (Oid → ℤ → S × List Varbind → Outcome) → Type 0
  Keeps base again =
      (current : Oid) (max : ℤ) (s : S) (collected : List Varbind)
      → IsOrdered base collected
      → current ≡ last_of base collected
      → IsSound base (again current max (s, collected))

  hand_over-IsSound :
      (again : Oid → ℤ → S × List Varbind → Outcome) (base current : Oid) (max : ℤ) (s : S)
      (collected : List Varbind) (vbs : List Varbind) (o : Option (Bool × Oid × List Varbind))
      → IsOrdered base collected
      → current ≡ last_of base collected
      → Keeps base again
      → scan base current vbs ≡ o
      → IsSound base (hand_over (collecting q) collect again max (s, collected) o)
  unfolding hand_over
  hand_over-IsSound again base current max s c vbs none w e k h = w
  hand_over-IsSound again base current max s c vbs (some (true, last, [])) w e k h = w
  hand_over-IsSound again base current max s c vbs (some (false, last, [])) w e k h =
      let (b1, b2, b3) = scan-IsBatch base current vbs false last [] h in k last max s c w (b3 ∙ e)
  hand_over-IsSound again base current max s c vbs (some (true, last, x ∷ xs)) w e k h =
      (IsOrdered-append base current last c (x ∷ xs) w e
        (scan-IsBatch base current vbs true last (x ∷ xs) h)).0
  hand_over-IsSound again base current max s c vbs (some (false, last, x ∷ xs)) w e k h =
      let (w1, e1) =
        IsOrdered-append base current last c (x ∷ xs) w e
          (scan-IsBatch base current vbs false last (x ∷ xs) h) in
      k last max s (c ++ x ∷ xs) w1 e1

  take_response-IsSound :
      (again : Oid → ℤ → S × List Varbind → Outcome) (base current : Oid) (max : ℤ) (s : S)
      (collected : List Varbind) (vbs : List Varbind)
      → IsOrdered base collected
      → current ≡ last_of base collected
      → Keeps base again
      → IsSound base
          (take_response (collecting q) collect again base current max (s, collected) vbs)
  unfolding take_response
  take_response-IsSound again base current max s c [] w e k = w
  take_response-IsSound again base current max s c (vb ∷ vbs) w e k =
      hand_over-IsSound again base current max s c (vb ∷ vbs) (scan base current (vb ∷ vbs)) w e k
        refl

  handle_reply-IsSound :
      (again : Oid → ℤ → S × List Varbind → Outcome) (base current : Oid) (max : ℤ) (s : S)
      (collected : List Varbind) (ec : Option Failure) (resp : Response)
      → IsOrdered base collected
      → current ≡ last_of base collected
      → Keeps base again
      → IsSound base
          (handle_reply (collecting q) collect again base current max (s, collected) ec resp)
  handle_reply-IsSound again base current max s c ec resp w e k =
      elim (handle_reply-cases (collecting q) collect again base current max (s, c) ec resp) [
        | inl d ↦ subst (IsSound base) (sym d) (k current (half max) s c w e)
        | inr (inl (x, d)) ↦ subst (IsSound base) (sym d) w
        | inr (inr d) ↦
            subst (IsSound base) (sym d)
              (take_response-IsSound again base current max s c resp.varbinds w e k)
      ]

  walk_loop-IsSound : (n : ℕ) (base : Oid) → Keeps base (walk_loop (collecting q) collect n base)
  unfolding walk_loop
  walk_loop-IsSound zero base current max s c w e = tt
  walk_loop-IsSound (suc n) base current max s c w e =
      elim (Option-cases (stop_now (q.cancelled s))) [
        | inr (x, f) ↦ rw (f, walk_loop) w
        | inl f ↦
            let out = q.do_request (walk_request current max) s in
            rw (f, walk_loop)
              (handle_reply-IsSound (walk_loop (collecting q) collect n base) base current max out.0
                c out.1.0 out.1.1 w e (walk_loop-IsSound n base))
      ]

kept-IsOrdered :
    (base : Oid) (ec : Option Failure) (c : List Varbind)
    → IsOrdered base c
    → IsOrdered base (kept ec c) × (ec ≡ some aborted → kept ec c ≡ [])
unfolding kept
kept-IsOrdered base none c w = (w, λ e. absurd (cc))
kept-IsOrdered base (some aborted) c w = ((tt, tt), λ e. refl)
kept-IsOrdered base (some (library x)) c w = (w, λ e. absurd (cc))
kept-IsOrdered base (some (agent x)) c w = (w, λ e. absurd (cc))
kept-IsOrdered base (some (socket x)) c w = (w, λ e. absurd (cc))

result :
    {S : Type 0} (q : Requester S) (base : Oid) (s' : S) (ec : Option Failure) (c : List Varbind)
    (o : Option ((S × List Varbind) × Option Failure))
    → IsSound q base o
    → collect_result o ≡ some (s', (ec, c))
    → IsOrdered base c × (ec ≡ some aborted → c ≡ [])
unfolding collect_result
result q base s' ec c none w h = absurd (cc)
result q base s' ec c (some ((s1, c1), e1)) w h =
    let e : ec ≡ e1 = ground arith in
    let f : kept e1 c1 ≡ c = ground arith in
    let (a, b) = kept-IsOrdered base e1 c1 w in
    (subst (IsOrdered base) f a, λ k. sym f ∙ b (sym e ∙ k))

-- Whatever the Target answers, and however the Walk completes, what doWalkCollect collected are
-- values of the subtree of base, none of them an exception marker, each name greater than the one
-- before it and the first greater than base; and a Walk that completes with operation_aborted has
-- dropped them all.
pub do_walk_collect-IsOrdered :
    {S : Type 0} (q : Requester S) (base : Oid) (max : ℤ) (s s' : S) (ec : Option Failure)
    (collected : List Varbind)
    → do_walk_collect q base max s ≡ some (s', (ec, collected))
    → IsOrdered base collected × (ec ≡ some aborted → collected ≡ [])
unfolding do_walk_collect do_walk
do_walk_collect-IsOrdered q base max s s' ec collected h =
    result q base s' ec collected (do_walk (collecting q) collect base max (s, []))
      (walk_loop-IsSound q (rounds max) base base max s [] (tt, tt) refl) h
