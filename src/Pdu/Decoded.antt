-- ===== src/Pdu/Decoded.antt =====
-- `decodePdu` of src/Pdu.cpp on any input.
use snmpio.Ber.Reader.Fields
use snmpio.Common.{
  ℕ, ◌≤◌, true, false, not, none, some, Option, ◌≡◌, refl, sym, ap, ◌∙◌, arith, subst, List, All,
  length, ◌⊎◌, inl, inr,
}
use snmpio.Common.Int32.{ℤ, IsInt32}
use snmpio.Common.Bytes.{IsByte}
use snmpio.Error.{truncated, unexpected_pdu_type}
use snmpio.Value.{Varbind}
use snmpio.Value.Representable.{IsRepresentableVarbind}
use snmpio.Ber.Tag
use snmpio.Ber.Reader
use snmpio.Ber.Reader.{Reader, Read, has_error}
use snmpio.Ber.Reader.Outcome.{
  Kept, Outcome, Kept-refl, Kept-trans, fails-Outcome, if-Outcome, Element, IsSticky, later-Outcome,
  later-IsSticky,
}
use snmpio.Ber.Reader.Contents.{integer-Outcome, integer-IsSticky}
use snmpio.Ber.Reader.Scopes.{Block, in_scope-Outcome}
use snmpio.Ber.Reader.Varbinds.{InBounds, varbind_list-Outcome, varbind_list-IsSticky}
use snmpio.Pdu.{
  Pdu, PduType, is_pdu_tag, pdu_type_of, all_present, pdu_body, pdu_of_tag, pdu_at, decode_pdu,
}
use snmpio.Pdu.Representable.{IsRepresentablePdu}

all_present-none : (t : PduType) (i s x : Option ℤ) → all_present t i s x none ≡ none
unfolding all_present
all_present-none t none s x = refl
all_present-none t (some i) none x = refl
all_present-none t (some i) (some s) none = refl
all_present-none t (some i) (some s) (some x) = refl

-- The four reads, the last first.
abbrev with_varbinds : PduType → Option ℤ → Option ℤ → Option ℤ → Option (List Varbind) → Read Pdu
with_varbinds t i s x vbs r = (r, all_present t i s x vbs)

abbrev from_varbinds : PduType → Option ℤ → Option ℤ → Option ℤ → Read Pdu
from_varbinds t i s x r = let m = Fields.varbind_list r in (m.0, all_present t i s x m.1)

abbrev from_index : PduType → Option ℤ → Option ℤ → Read Pdu
from_index t i s r = let m = Fields.integer Tag.integer r in from_varbinds t i s m.1 m.0

abbrev from_status : PduType → Option ℤ → Read Pdu
from_status t i r = let m = Fields.integer Tag.integer r in from_index t i m.1 m.0

varbinds-IsSticky : (t : PduType) (i s x : Option ℤ) → IsSticky (from_varbinds t i s x)
varbinds-IsSticky t i s x r he =
    ap (λ (m : Reader × Option (List Varbind)). (m.0, all_present t i s x m.1))
      (varbind_list-IsSticky r he)
    ∙ ap (λ (o : Option Pdu). (r, o)) (all_present-none t i s x)

index-IsSticky : (t : PduType) (i s : Option ℤ) → IsSticky (from_index t i s)
index-IsSticky t i s =
    later-IsSticky (Fields.integer Tag.integer) (from_varbinds t i s) (integer-IsSticky Tag.integer)
      (varbinds-IsSticky t i s)

status-IsSticky : (t : PduType) (i : Option ℤ) → IsSticky (from_status t i)
status-IsSticky t i =
    later-IsSticky (Fields.integer Tag.integer) (from_index t i) (integer-IsSticky Tag.integer)
      (index-IsSticky t i)

body-IsSticky : (t : PduType) → IsSticky (pdu_body t)
unfolding pdu_body
body-IsSticky t =
    later-IsSticky (Fields.integer Tag.integer) (from_status t) (integer-IsSticky Tag.integer)
      (status-IsSticky t)

-- The value of a later read, of a reader that an earlier one left.
module _ (t : PduType) (r : Reader) where
  abbrev Whole : Pdu → Reader → Type 0
  Whole p r' = All IsByte r.buf → IsRepresentablePdu p

  abbrev Held : {A : Type 0} → (A → Type 0) → A → Type 0
  Held P a = All IsByte r.buf → P a

  whole :
      (i s x : ℤ) (r1 : Reader) (m : Reader × Option (List Varbind))
      → Held IsInt32 i
      → Held IsInt32 s
      → Held IsInt32 x
      → Kept r r1
      → Outcome r1 (Element (All IsRepresentableVarbind) r1) m
      → Outcome r Whole (m.0, all_present t (some i) (some s) (some x) m.1)
  unfolding all_present
  whole i s x r1 (r2, none) hi hs hx k (k2, e) = (Kept-trans r r1 r2 k k2, e)
  whole i s x r1 (r2, some vbs) hi hs hx k (k2, e, q) = (
    Kept-trans r r1 r2 k k2,
    e,
    λ hb. record {
      request_id = hi hb;
      error_status = hs hb;
      error_index = hx hb;
      varbinds = q.1 (subst (All IsByte) (sym k.buf) hb);
    },
  )

  in_bounds : (r1 : Reader) → Kept r r1 → r.end ≤ length r.buf → InBounds r1
  in_bounds r1 k h = (k.within, omega (arith, k.end, ap (λ (l : List ℕ). length l) k.buf))

  number :
      (r1 : Reader)
      → Kept r r1
      → has_error r1 ≡ false
      → Outcome r (λ v _. Held IsInt32 v) (Fields.integer Tag.integer r1)
  number r1 k e = held (Fields.integer Tag.integer r1) (integer-Outcome Tag.integer r1 e k.within)
    where
      held :
          (p : Reader × Option ℤ)
          → Outcome r1 (Element IsInt32 r1) p
          → Outcome r (λ v _. Held IsInt32 v) p
      held (r2, none) (k2, e2) = (Kept-trans r r1 r2 k k2, e2)
      held (r2, some v) (k2, e2, q) =
          (Kept-trans r r1 r2 k k2, e2, λ hb. q.1 (subst (All IsByte) (sym k.buf) hb))

  body-Outcome : has_error r ≡ false → InBounds r → Outcome r Whole (pdu_body t r)
  unfolding pdu_body
  body-Outcome he h =
      later-Outcome (λ v _. Held IsInt32 v) Whole r (Fields.integer Tag.integer r) (from_status t)
        (number r (Kept-refl r h.0) he) (status-IsSticky t)
        (λ i r1 k1 e1 hi.
          later-Outcome (λ v _. Held IsInt32 v) Whole r (Fields.integer Tag.integer r1)
            (from_index t (some i)) (number r1 k1 e1) (index-IsSticky t (some i))
            (λ s r2 k2 e2 hs.
              later-Outcome (λ v _. Held IsInt32 v) Whole r (Fields.integer Tag.integer r2)
                (from_varbinds t (some i) (some s)) (number r2 k2 e2)
                (varbinds-IsSticky t (some i) (some s))
                (λ x r3 k3 e3 hx.
                  whole i s x r3 (Fields.varbind_list r3) hi hs hx k3
                    (varbind_list-Outcome r3 e3 (in_bounds r3 k3 h.1)))))

block :
    (t : PduType) (r : Reader)
    → r.end ≤ length r.buf
    → (r1 : Reader)
    → (has_error r1 ≡ true)
      ⊎ ((has_error r1 ≡ false) × ((r1.pos ≤ r1.end) × ((r1.end ≤ r.end) × (r1.buf ≡ r.buf))))
    → Block IsRepresentablePdu r1 (pdu_body t r1)
block t r h r1 (inl e) = inl (e, ap (λ (p : Reader × Option Pdu). p.0) (body-IsSticky t r1 e))
block t r h r1 (inr (e, w)) =
    let same : length r1.buf ≡ length r.buf = ap (λ (l : List ℕ). length l) w.1.1 in
    inr (e, body-Outcome t r1 e (w.0, omega (arith, same, w.1.0, h)))

pdu_at-Outcome :
    (o : Option ℕ) (r : Reader)
    → has_error r ≡ false
    → InBounds r
    → Outcome r (Element IsRepresentablePdu r) (pdu_at o r)
unfolding pdu_at pdu_of_tag
pdu_at-Outcome none r he h = fails-Outcome truncated r h.0
pdu_at-Outcome (some t) r he h =
    if-Outcome r (Element IsRepresentablePdu r) _ _ (not (is_pdu_tag t))
      (λ _. fails-Outcome unexpected_pdu_type r h.0)
      (λ _.
        in_scope-Outcome IsRepresentablePdu t (pdu_body (pdu_type_of t)) r he h.0
          (block (pdu_type_of t) r h.1))

-- From a reader that is in bounds and has no error, whatever lies ahead, decodePdu leaves the
-- buffer and the bound as they were and the cursor between where it was and the bound; it returns
-- a PDU exactly if no error is recorded, has then taken two octets at least, and the PDU can be
-- encoded again if the buffer holds octets.
pub decode_pdu-Outcome :
    (r : Reader)
    → has_error r ≡ false
    → InBounds r
    → Outcome r (Element IsRepresentablePdu r) (decode_pdu r)
unfolding decode_pdu
decode_pdu-Outcome r he h = rw he (pdu_at-Outcome (Reader.peek_tag r) r he h)
