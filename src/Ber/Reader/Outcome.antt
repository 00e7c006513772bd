-- ===== src/Ber/Reader/Outcome.antt =====
-- What a read of src/BerReader.cpp leaves behind on any input, well formed or not: the bound and the
-- buffer as they were, the cursor no further back and not past the bound, and an error exactly when
-- there is no value.
use snmpio.Common.{
  ◌+◌, ◌≤◌, Bool, true, false, none, some, Option, All, ◌≡◌, if◌then◌else◌, refl, sym, ap, subst,
  ◌∙◌, arith,
}
use snmpio.Common.Bytes.{IsByte}
use snmpio.Error.{Errc}
use snmpio.Ber.Reader.{Reader, Read, and_then, has_error, fail, ◌>>=◌}

pub record Kept (r r' : Reader) : Type 0 where
  pub buf : r'.buf ≡ r.buf
  pub end : r'.end ≡ r.end
  pub forward : r.pos ≤ r'.pos
  pub within : r'.pos ≤ r'.end

abbrev pub Outcome : {A : Type 0} → Reader → (A → Reader → Type 0) → Reader × Option A → Type 0
Outcome r Q (r', none) = Kept r r' × (has_error r' ≡ true)
Outcome r Q (r', some a) = Kept r r' × (has_error r' ≡ false) × Q a r'

pub Kept-refl : (r : Reader) → r.pos ≤ r.end → Kept r r
Kept-refl r h = record { buf = refl; end = refl; forward = omega arith; within = h }

pub Kept-trans : (r r1 r2 : Reader) → Kept r r1 → Kept r1 r2 → Kept r r2
Kept-trans r r1 r2 h k = record {
  buf = k.buf ∙ h.buf;
  end = k.end ∙ h.end;
  forward = omega (arith, h.forward, k.forward);
  within = k.within;
}

pub has_error-fail : (e : Errc) (r : Reader) → has_error (fail e r) ≡ true
unfolding fail
has_error-fail e r = ground arith

pub fail-Kept : (e : Errc) (r : Reader) → r.pos ≤ r.end → Kept r (fail e r)
unfolding fail
fail-Kept e r h = record { buf = refl; end = refl; forward = h; within = omega arith }

-- The outcome of a read that fails, whatever it was to return.
pub fails-Outcome :
    (e : Errc) (r : Reader) → r.pos ≤ r.end → Kept r (fail e r) × (has_error (fail e r) ≡ true)
fails-Outcome e r h = (fail-Kept e r h, has_error-fail e r)

pub if-Outcome :
    {A : Type 0} (r : Reader) (Q : A → Reader → Type 0) (x y : Reader × Option A) (b : Bool)
    → (b ≡ true → Outcome r Q x)
    → (b ≡ false → Outcome r Q y)
    → Outcome r Q (if b then x else y)
if-Outcome r Q x y true f g = f refl
if-Outcome r Q x y false f g = g refl

-- The outcome of a read that goes on from an outcome.
pub Outcome-trans :
    {A : Type 0} (Q R : A → Reader → Type 0) (r r1 : Reader) (p : Reader × Option A)
    → Kept r r1
    → Outcome r1 Q p
    → ((a : A) (r2 : Reader) → Kept r1 r2 → Q a r2 → R a r2)
    → Outcome r R p
Outcome-trans Q R r r1 (r2, none) k h f = (Kept-trans r r1 r2 k h.0, h.1)
Outcome-trans Q R r r1 (r2, some a) k h f = (Kept-trans r r1 r2 k h.0, h.1, f a r2 h.0 h.2)

pub and_then-Outcome :
    {A B : Type 0} (Q : A → Reader → Type 0) (R : B → Reader → Type 0) (r : Reader)
    (p : Reader × Option A) (f : A → Read B)
    → Outcome r Q p
    → ((a : A) (r1 : Reader) → Kept r r1 → has_error r1 ≡ false → Q a r1 → Outcome r R (f a r1))
    → Outcome r R (and_then p.1 p.0 f)
and_then-Outcome Q R r (r1, none) f h k = (h.0, h.1)
and_then-Outcome Q R r (r1, some a) f h k = k a r1 h.0 h.1 h.2

-- A read that takes an element: two octets at least. What holds of its value may rest on the buffer
-- being one of octets.
abbrev pub Element : {A : Type 0} → (A → Type 0) → Reader → A → Reader → Type 0
Element P r a r' = (r.pos + 2 ≤ r'.pos) × (All IsByte r.buf → P a)

-- A check of the value that was read, which moves nothing.
pub checked-Outcome :
    {A B : Type 0} (P : A → Type 0) (R : B → Type 0) (r : Reader) (m : Read A) (f : A → Read B)
    → Outcome r (Element P r) (m r)
    → ((a : A) (r1 : Reader)
        → has_error r1 ≡ false
        → r1.pos ≤ r1.end
        → Outcome r1 (λ b _. P a → R b) (f a r1))
    → Outcome r (Element R r) ((m >>= f) r)
checked-Outcome P R r m f h g =
    and_then-Outcome (Element P r) (Element R r) r (m r) f h (λ a r1 k e q.
      Outcome-trans (λ b _. P a → R b) (Element R r) r r1 (f a r1) k (g a r1 e k.within)
        (λ b r2 k2 w. (omega (arith, q.0, k2.forward), λ hb. w (q.1 hb))))

-- With an error recorded a read returns nothing and changes nothing.
abbrev pub IsSticky : {A : Type 0} → Read A → Type 0
IsSticky m = (r : Reader) → has_error r ≡ true → m r ≡ (r, none)

pub bind-IsSticky : {A B : Type 0} (m : Read A) (f : A → Read B) → IsSticky m → IsSticky (m >>= f)
bind-IsSticky {A} m f h r he = ap (λ (p : Reader × Option A). and_then p.1 p.0 f) (h r he)

-- A read whose value is looked at only later, when the reads behind it have been tried.
pub later-Outcome :
    {A B : Type 0} (Q : A → Reader → Type 0) (R : B → Reader → Type 0) (r : Reader)
    (p : Reader × Option A) (g : Option A → Read B)
    → Outcome r Q p
    → ((o : Option A) → IsSticky (g o))
    → ((a : A) (r1 : Reader)
        → Kept r r1
        → has_error r1 ≡ false
        → Q a r1
        → Outcome r R (g (some a) r1))
    → Outcome r R (g p.1 p.0)
later-Outcome Q R r (r1, none) g (k, e) st f = subst (Outcome r R) (sym (st none r1 e)) (k, e)
later-Outcome Q R r (r1, some a) g (k, e, q) st f = f a r1 k e q

pub later-IsSticky :
    {A B : Type 0} (m : Read A) (g : Option A → Read B)
    → IsSticky m
    → ((o : Option A) → IsSticky (g o))
    → (r : Reader) → has_error r ≡ true
    → g (m r).1 (m r).0 ≡ (r, none)
later-IsSticky {A} m g h st r he = ap (λ (p : Reader × Option A). g p.1 p.0) (h r he) ∙ st none r he
