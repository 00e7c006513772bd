-- ===== src/Ber/Reader/Varbinds.antt =====
-- `readVarbind` and `varbindList` of src/BerReader.cpp on any input.
use snmpio.Common.{
  ℕ, zero, suc, ◌-◌, ◌≤◌, ◌<◌, true, false, ◌||◌, Option, ◌≡◌, refl, sym, ap, arith, subst, List,
  [], ◌∷◌, ◌++◌, All, All-append, length, ◌⊎◌, inl, inr,
}
use snmpio.Common.Bytes.{IsByte}
use snmpio.Value.{Varbind}
use snmpio.Value.Representable.{IsRepresentable, IsRepresentableVarbind}
use snmpio.Ber.Tag
use snmpio.Ber.Reader.{Reader, has_error, at_end, return, and_then}
use snmpio.Ber.Reader.Fields.{
  object_identifier, any_value, varbind_body, read_varbind, varbinds_loop, varbind_list,
}
use snmpio.Ber.Reader.Outcome.{
  Outcome, Kept-refl, if-Outcome, and_then-Outcome, Outcome-trans, Element, IsSticky, bind-IsSticky,
}
use snmpio.Ber.Reader.Scopes.{Block, in_scope-Outcome}
use snmpio.Ber.Reader.Decoded.{
  IsEncodable, object_identifier-Outcome, object_identifier-IsSticky, any_value-Outcome,
}

-- The cursor is not past the bound, and the bound not past the buffer.
abbrev pub InBounds : Reader → Type 0
InBounds r = (r.pos ≤ r.end) × (r.end ≤ length r.buf)

bytes_back : (r r' : Reader) → r'.buf ≡ r.buf → All IsByte r.buf → All IsByte r'.buf
bytes_back r r' e h = subst (All IsByte) (sym e) h

body-Outcome :
    (r : Reader)
    → has_error r ≡ false
    → r.pos ≤ r.end
    → Outcome r (λ vb _. All IsByte r.buf → IsRepresentableVarbind vb) (varbind_body r)
body-Outcome r he h =
    and_then-Outcome (Element IsEncodable r) R r (object_identifier r) _
      (object_identifier-Outcome r he h)
      (λ name r1 k e q.
        Outcome-trans R R r r1
          (and_then (any_value r1).1 (any_value r1).0
            (λ val. return (record { name = name; val = val })))
          k
          (and_then-Outcome (Element IsRepresentable r1) R r1 (any_value r1) _
            (any_value-Outcome r1 e k.within)
            (λ val r2 k2 e2 q2.
              (k2, e2, λ hb. ((q.1 hb).0, (q.1 hb).1, q2.1 (bytes_back r r1 k.buf hb)))))
          (λ vb r2 k2 w. w))
  where
    R : Varbind → Reader → Type 0
    R vb r' = All IsByte r.buf → IsRepresentableVarbind vb

body-IsSticky : IsSticky varbind_body
body-IsSticky = bind-IsSticky object_identifier _ object_identifier-IsSticky

-- A varbind that is read takes two octets at least.
pub read_varbind-Outcome :
    (r : Reader)
    → has_error r ≡ false
    → r.pos ≤ r.end
    → Outcome r (Element IsRepresentableVarbind r) (read_varbind r)
unfolding read_varbind
read_varbind-Outcome r he h =
    rw he (in_scope-Outcome IsRepresentableVarbind Tag.sequence varbind_body r he h (block r))
  where
    block :
        (r r1 : Reader)
        → (has_error r1 ≡ true)
          ⊎ ((has_error r1 ≡ false) × ((r1.pos ≤ r1.end) × ((r1.end ≤ r.end) × (r1.buf ≡ r.buf))))
        → Block IsRepresentableVarbind r1 (varbind_body r1)
    block r r1 (inl e) = inl (e, ap (λ (p : Reader × Option Varbind). p.0) (body-IsSticky r1 e))
    block r r1 (inr (e, w)) = inr (e, body-Outcome r1 e w.0)

-- Rounds enough for the octets ahead are rounds enough.
varbinds_loop-Outcome :
    (f : ℕ) (out : List Varbind) (r : Reader)
    → has_error r ≡ false
    → r.pos ≤ r.end
    → r.end - r.pos < f
    → Outcome r
        (λ vbs _.
          All IsByte r.buf → All IsRepresentableVarbind out → All IsRepresentableVarbind vbs)
        (varbinds_loop f out r)
unfolding varbinds_loop
varbinds_loop-Outcome zero out r he h hf = absurd (omega arith)
varbinds_loop-Outcome (suc f) out r he h hf =
    if-Outcome r R _ _ (has_error r || at_end r) (λ _. (Kept-refl r h, he, λ hb ho. ho))
      (λ _.
        and_then-Outcome (Element IsRepresentableVarbind r) R r (read_varbind r) _
          (read_varbind-Outcome r he h)
          (λ vb r1 k e q.
            Outcome-trans
              (λ vbs _.
                All IsByte r1.buf
                → All IsRepresentableVarbind (out ++ vb ∷ [])
                → All IsRepresentableVarbind vbs)
              R r r1 (varbinds_loop f (out ++ vb ∷ []) r1) k
              (varbinds_loop-Outcome f (out ++ vb ∷ []) r1 e k.within
                (omega (arith, q.0, k.end, k.within)))
              (λ vbs r2 k2 w hb ho.
                w (bytes_back r r1 k.buf hb)
                  (All-append IsRepresentableVarbind out (vb ∷ []) ho (q.1 hb, tt)))))
  where
    R : List Varbind → Reader → Type 0
    R vbs r' = All IsByte r.buf → All IsRepresentableVarbind out → All IsRepresentableVarbind vbs

loop_idle :
    (out : List Varbind) (f : ℕ) (r : Reader)
    → has_error r ≡ true
    → (varbinds_loop (suc f) out r).0 ≡ r
unfolding varbinds_loop
loop_idle out f r he = rw he refl

-- From a reader that is in bounds and has no error, whatever lies ahead, varbindList leaves the
-- buffer and the bound as they were and the cursor between where it was and the bound; its loop
-- ends by returning the list with no error or nothing with an error, never for want of rounds, and
-- the varbinds of the list can be encoded again if the buffer holds octets.
pub varbind_list-Outcome :
    (r : Reader)
    → has_error r ≡ false
    → InBounds r
    → Outcome r (Element (All IsRepresentableVarbind) r) (varbind_list r)
unfolding varbind_list
varbind_list-Outcome r he h = rw he (
    in_scope-Outcome (All IsRepresentableVarbind) Tag.sequence
      (λ r1. varbinds_loop (suc (length r1.buf)) [] r1) r he h.0 (block r h.1))
  where
    block :
        (r : Reader)
        → r.end ≤ length r.buf
        → (r1 : Reader)
        → (has_error r1 ≡ true)
          ⊎ ((has_error r1 ≡ false) × ((r1.pos ≤ r1.end) × ((r1.end ≤ r.end) × (r1.buf ≡ r.buf))))
        → Block (All IsRepresentableVarbind) r1 (varbinds_loop (suc (length r1.buf)) [] r1)
    block r hl r1 (inl e) = inl (e, loop_idle [] (length r1.buf) r1 e)
    block r hl r1 (inr (e, w)) =
        let same : length r1.buf ≡ length r.buf = ap (λ (l : List ℕ). length l) w.1.1 in
        inr (
          e,
          Outcome-trans (λ vbs _. All IsByte r1.buf → Unit {0} → All IsRepresentableVarbind vbs)
              (λ vbs _. All IsByte r1.buf → All IsRepresentableVarbind vbs) r1 r1
              (varbinds_loop (suc (length r1.buf)) [] r1) (Kept-refl r1 w.0)
              (varbinds_loop-Outcome (suc (length r1.buf)) [] r1 e w.0
                (omega (arith, same, w.1.0, hl)))
              (λ vbs r2 k q hb. q hb tt),
        )

pub varbind_list-IsSticky : IsSticky varbind_list
unfolding varbind_list
varbind_list-IsSticky r he = rw he
