-- ===== src/Ber/Reader/Scopes.antt =====
-- `Reader::Scope` of src/BerReader.cpp on any input: what a block inside a scope may do to the reader
-- round it.
use snmpio.Common.{
  ℕ, ◌+◌, ◌≤◌, Bool, true, false, not, ◌&&◌, none, some, Option, ◌≡◌, refl, sym, ap, ◌∙◌, arith,
  subst, All, ◌==◌, if◌then◌else◌, ◌⊎◌, inl, inr,
}
use snmpio.Common.Bytes.{IsByte}
use snmpio.Error.{Errc, unexpected_tag, trailing_data}
use snmpio.Ber.Tag
use snmpio.Ber.Reader.{
  Reader, Read, Header, Scope, has_error, fail, peek_tag, read_header, enter, enter_header, is_tag,
  leave, in_scope, unless_failed, empty_scope,
}
use snmpio.Ber.Reader.Outcome.{Kept, Outcome, fail-Kept, has_error-fail, if-Outcome, Element}
use snmpio.Ber.Reader.Headers.{Behind, read_header-Outcome}

-- A scope opened on `r`: it remembers the bound of `r`, and either there is an error or the bound is
-- narrowed to a content inside the old one.
pub record Opened (r r1 : Reader) (s : Scope) : Type 0 where
  pub buf : r1.buf ≡ r.buf
  pub saved : s.saved_end ≡ r.end
  pub forward : r.pos ≤ s.content_end
  pub within : s.content_end ≤ r.end
  pub state :
      (has_error r1 ≡ true)
      ⊎ ((has_error r1 ≡ false)
          × ((r.pos + 2 ≤ r1.pos) × (r1.pos ≤ r1.end) × (r1.end ≡ s.content_end)))

refused :
    (e : Errc) (r : Reader)
    → r.pos ≤ r.end
    → let p = empty_scope r.end (fail e r) in Opened r p.0 p.1
refused e r h =
    let k = fail-Kept e r h in
    record {
      buf = k.buf;
      saved = refl;
      forward = k.forward;
      within = omega (arith, k.within, k.end);
      state = inl (has_error-fail e r);
    }

entered :
    (r : Reader) (p : Reader × Option Header)
    → Outcome r (Behind 2 r) p
    → let q = enter_header r.end p in Opened r q.0 q.1
unfolding enter_header
entered r (r1, none) (k, e) = record {
  buf = k.buf;
  saved = refl;
  forward = k.forward;
  within = omega (arith, k.within, k.end);
  state = inl e;
}
entered r (r1, some h) (k, e, b) = record {
  buf = k.buf;
  saved = refl;
  forward = omega (arith, k.forward);
  within = omega (arith, b.1, k.end);
  state = inr (e, (b.0, omega arith, refl));
}

if-Opened :
    {r : Reader} {x y : Reader × Scope} (b : Bool)
    → Opened r x.0 x.1
    → Opened r y.0 y.1
    → let p = if b then x else y in Opened r p.0 p.1
if-Opened true f g = f
if-Opened false f g = g

pub enter-Opened :
    (t : ℕ) (r : Reader)
    → has_error r ≡ false
    → r.pos ≤ r.end
    → Opened r (enter t r).0 (enter t r).1
unfolding enter
enter-Opened t r he h = rw he (
    if-Opened (not (Tag.is_constructed t)) (refused unexpected_tag r h) (
      if-Opened (not (is_tag t (peek_tag r))) (refused unexpected_tag r h)
        (entered r (read_header r) (read_header-Outcome r he h))))

flagged : (b c : Bool) (e : Errc) (r : Reader) → r.buf ≡ (if b && c then fail e r else r).buf
unfolding fail
flagged true true e r = refl
flagged true false e r = refl
flagged false c e r = refl

-- Behind the block the old bound is back, and the cursor stands behind the content.
pub leave-Kept :
    (r r1 r2 : Reader) (s : Scope) → Opened r r1 s → r2.buf ≡ r1.buf → Kept r (leave s r2)
unfolding leave
leave-Kept r r1 r2 s o e = record {
  buf =
      sym (flagged (not (has_error r2)) (not (r2.pos == s.content_end)) trailing_data r2)
      ∙ e
      ∙ o.buf;
  end = o.saved;
  forward = o.forward;
  within = omega (arith, o.within, o.saved);
}

-- An error inside the block is one outside it.
pub leave_error : (s : Scope) (r : Reader) → has_error r ≡ true → has_error (leave s r) ≡ true
unfolding leave
leave_error s r h = rw h h

unflagged :
    (b : Bool) (e : Errc) (r : Reader) → has_error (if b then fail e r else r) ≡ false → b ≡ false
unflagged true e r h = cc (has_error-fail e r)
unflagged false e r h = refl

-- What a block does: nothing where there is an error, and otherwise what a read does.
abbrev pub Block : {A : Type 0} → (A → Type 0) → Reader → Reader × Option A → Type 0
Block P r q =
    ((has_error r ≡ true) × (q.0 ≡ r))
    ⊎ ((has_error r ≡ false) × Outcome r (λ a _. All IsByte r.buf → P a) q)

abbrev State : Reader → Reader → Scope → Type 0
State r r1 s =
    (has_error r1 ≡ true)
    ⊎ ((has_error r1 ≡ false)
        × ((r.pos + 2 ≤ r1.pos) × (r1.pos ≤ r1.end) × (r1.end ≡ s.content_end)))

behind :
    (r r1 r2 : Reader) (s : Scope)
    → has_error r1 ≡ false
    → State r r1 s
    → r.pos + 2 ≤ (leave s r2).pos
unfolding leave
behind r r1 r2 s e (inl w) = absurd (cc (sym e ∙ w))
behind r r1 r2 s e (inr w) = omega (arith, w.1.0, w.1.1, w.1.2)

untouched :
    {A : Type 0} (P : A → Type 0) (r1 : Reader) (q : Reader × Option A)
    → Block P r1 q
    → q.0.buf ≡ r1.buf
untouched P r1 q (inl (e, same)) = ap (λ (r : Reader). r.buf) same
untouched P r1 (r2, none) (inr (e, o)) = o.0.buf
untouched P r1 (r2, some a) (inr (e, o)) = o.0.buf

closed :
    {A : Type 0} (P : A → Type 0) (r r1 : Reader) (s : Scope) (q : Reader × Option A)
    → Opened r r1 s
    → Block P r1 q
    → has_error (leave s q.0) ≡ false
    → Outcome r (Element P r) (leave s q.0, q.1)
closed P r r1 s q o (inl (he, same)) h =
    absurd (cc (leave_error s q.0 (ap (λ (r : Reader). has_error r) same ∙ he)))
closed P r r1 s (r2, none) o (inr (e1, (k, e))) h = absurd (cc (leave_error s r2 e))
closed P r r1 s (r2, some a) o (inr (e1, (k, e, p))) h = (
  leave-Kept r r1 r2 s o k.buf,
  h,
  (behind r r1 r2 s e1 o.state, λ hb. p (subst (All IsByte) (sym o.buf) hb)),
)

narrow :
    (r r1 : Reader) (s : Scope)
    → Opened r r1 s
    → (has_error r1 ≡ true)
      ⊎ ((has_error r1 ≡ false) × ((r1.pos ≤ r1.end) × ((r1.end ≤ r.end) × (r1.buf ≡ r.buf))))
narrow r r1 s o = elim o.state [
  | inl e ↦ inl e
  | inr w ↦ inr (w.0, (w.1.1, (omega (arith, w.1.2, o.within), o.buf)))
]

-- A block in a scope, with the test for an error behind it, is a read of an element.
pub in_scope-Outcome :
    {A : Type 0} (P : A → Type 0) (t : ℕ) (body : Read A) (r : Reader)
    → has_error r ≡ false
    → r.pos ≤ r.end
    → ((r1 : Reader)
        → (has_error r1 ≡ true)
          ⊎ ((has_error r1 ≡ false) × ((r1.pos ≤ r1.end) × ((r1.end ≤ r.end) × (r1.buf ≡ r.buf))))
        → Block P r1 (body r1))
    → Outcome r (Element P r) (unless_failed (in_scope t body r))
unfolding in_scope unless_failed
in_scope-Outcome P t body r he h hb =
    let r1 = (enter t r).0 in
    let s = (enter t r).1 in
    let q = body r1 in
    let o = enter-Opened t r he h in
    let b = hb r1 (narrow r r1 s o) in
    if-Outcome r (Element P r) _ _ (has_error (leave s q.0))
      (λ e. (leave-Kept r r1 q.0 s o (untouched P r1 q b), e)) (closed P r r1 s q o b)
