-- ===== src/Ber/RoundTrip/Varbinds.antt =====
-- `readVarbind` and `varbindList` on what `write` and `varbindList` wrote.
use snmpio.Common.{
  ℕ, zero, suc, ◌^◌, ◌≤◌, ◌<◌, true, false, some, Option, List, [], ◌∷◌, ◌++◌, length, All, ◌≡◌,
  refl, sym, ap, ◌∙◌, arith, length-append, append_assoc, append-nil,
}
use snmpio.Oid.{Oid}
use snmpio.Value.{Value, Varbind}
use snmpio.Value.Representable.{IsRepresentableVarbind}
use snmpio.Ber.Tag
use snmpio.Ber.Writer.Shape.{element, oid_octets}
use snmpio.Ber.Writer.Values.{value_octets, varbind_octets, varbinds_octets}
use snmpio.Ber.Reader.{Reader, Read, and_then, return, has_error, at_end, unless_failed}
use snmpio.Ber.Reader.Fields.{any_value, varbind_body, read_varbind, varbinds_loop, varbind_list}
use snmpio.Ber.Reader.Cursor.{facing, facing_ok, facing_eq}
use snmpio.Ber.RoundTrip.OidContent.{object_identifier-facing}
use snmpio.Ber.RoundTrip.Scope.{in_scope-facing}
use snmpio.Ber.RoundTrip.Values.{any_value-facing, length-element}

body-facing :
    (vb : Varbind) (p q : List ℕ)
    → IsRepresentableVarbind vb
    → length (value_octets vb.val) < 2 ^ 32
    → let c = element Tag.object_identifier (oid_octets vb.name) ++ value_octets vb.val in
      varbind_body (facing p c q) ≡ (facing (p ++ c) [] q, some vb)
body-facing vb p q (he, hs, hv) hn =
    ap (λ (m : Reader × Option Oid). and_then m.1 m.0 (λ name. rest name))
      (object_identifier-facing vb.name p (value_octets vb.val) q he hs)
    ∙ ap
        (λ (m : Reader × Option Value).
          and_then m.1 m.0 (λ val. return (record { name = vb.name; val = val })))
        value
    ∙ ap (λ (r : Reader). (r, some vb)) (facing_eq [] q (append_assoc p _ (value_octets vb.val)))
  where
    rest : Oid → Read Varbind
    rest name r =
        let m = any_value r in and_then m.1 m.0 (λ val. return (record { name = name; val = val }))

    front : List ℕ
    front = p ++ element Tag.object_identifier (oid_octets vb.name)

    value :
        any_value (facing front (value_octets vb.val) q)
        ≡ (facing (front ++ value_octets vb.val) [] q, some vb.val)
    value =
        ap (λ (c : List ℕ). any_value (facing front c q)) (sym (append-nil (value_octets vb.val)))
        ∙ any_value-facing vb.val front [] q hv hn

pub unless_failed_ok :
    {A : Type 0} (r : Reader) (a : A)
    → has_error r ≡ false
    → unless_failed (r, some a) ≡ (r, some a)
unfolding unless_failed
unless_failed_ok r a h = rw h

-- A varbind is read back from its encoding.
pub read_varbind-facing :
    (vb : Varbind) (pre xs post : List ℕ)
    → IsRepresentableVarbind vb
    → length (varbind_octets vb) < 2 ^ 32
    → read_varbind (facing pre (varbind_octets vb ++ xs) post)
      ≡ (facing (pre ++ varbind_octets vb) xs post, some vb)
unfolding read_varbind varbind_octets
read_varbind-facing vb pre xs post h hn =
    let c = element Tag.object_identifier (oid_octets vb.name) ++ value_octets vb.val in
    rw (facing_ok pre (element Tag.sequence c ++ xs) post) (
      ap unless_failed (
        in_scope-facing Tag.sequence varbind_body vb c pre xs post refl refl
          (omega (arith, length-element Tag.sequence c))
          (λ p q. body-facing vb p q h (
            omega (
              arith,
              length-element Tag.sequence c,
              length-append (element Tag.object_identifier (oid_octets vb.name))
                  (value_octets vb.val),
            ))))
      ∙ unless_failed_ok _ vb (facing_ok (pre ++ element Tag.sequence c) xs post))

pub at_end-facing_nil : (pre post : List ℕ) → at_end (facing pre [] post) ≡ true
unfolding at_end facing
at_end-facing_nil pre post = ground arith

pub at_end-facing : (pre xs post : List ℕ) → 1 ≤ length xs → at_end (facing pre xs post) ≡ false
unfolding at_end facing
at_end-facing pre xs post h = ground arith

varbind_some : (vb : Varbind) → 1 ≤ length (varbind_octets vb)
unfolding varbind_octets
varbind_some vb = omega (
  arith,
  length-element Tag.sequence
      (element Tag.object_identifier (oid_octets vb.name) ++ value_octets vb.val),
)

-- The loop reads the varbinds in order, given a round for each and one more.
varbinds_loop-facing :
    (vbs out : List Varbind) (f : ℕ) (pre post : List ℕ)
    → All IsRepresentableVarbind vbs
    → length (varbinds_octets vbs) < 2 ^ 32
    → length vbs < f
    → varbinds_loop f out (facing pre (varbinds_octets vbs) post)
      ≡ (facing (pre ++ varbinds_octets vbs) [] post, some (out ++ vbs))
unfolding varbinds_loop varbinds_octets
varbinds_loop-facing [] out zero pre post h hn hf = absurd (omega arith)
varbinds_loop-facing [] out (suc f) pre post h hn hf =
    rw (facing_ok pre [] post, at_end-facing_nil pre post, append-nil pre, append-nil out)
varbinds_loop-facing (vb ∷ vbs) out zero pre post h hn hf = absurd (omega arith)
varbinds_loop-facing (vb ∷ vbs) out (suc f) pre post h hn hf =
    let v = varbind_octets vb in
    let vs = varbinds_octets vbs in
    let parts = length-append v vs in
    rw
      (
        facing_ok pre (v ++ vs) post,
        at_end-facing pre (v ++ vs) post (omega (arith, parts, varbind_some vb)),
      )
      (ap (λ (m : Reader × Option Varbind). and_then m.1 m.0 (λ b. varbinds_loop f (out ++ b ∷ [])))
          (read_varbind-facing vb pre vs post h.0 (omega (arith, parts)))
        ∙ varbinds_loop-facing vbs (out ++ vb ∷ []) f (pre ++ v) post h.1 (omega (arith, parts))
            (omega arith)
        ∙ ap (λ (l : List Varbind). (facing ((pre ++ v) ++ vs) [] post, some l))
            (append_assoc out (vb ∷ []) vbs)
        ∙ ap (λ (r : Reader). (r, some (out ++ vb ∷ vbs)))
            (facing_eq [] post (append_assoc pre v vs)))

pub length-varbinds-le : (vbs : List Varbind) → length vbs ≤ length (varbinds_octets vbs)
unfolding varbinds_octets
length-varbinds-le [] = omega arith
length-varbinds-le (vb ∷ vbs) = omega (
  arith,
  length-append (varbind_octets vb) (varbinds_octets vbs),
  varbind_some vb,
  length-varbinds-le vbs,
)

length-buf-facing : (pre xs post : List ℕ) → length xs ≤ length (facing pre xs post).buf
unfolding facing
length-buf-facing pre xs post = omega (arith, length-append pre (xs ++ post), length-append xs post)

-- varbindList reads a list of representable varbinds back from its encoding, if the list encodes
-- below 2^32 octets, in order and to the end of the list; its loop has rounds enough.
pub varbind_list-facing :
    (vbs : List Varbind) (pre xs post : List ℕ)
    → All IsRepresentableVarbind vbs
    → length (varbinds_octets vbs) < 2 ^ 32
    → varbind_list (facing pre (element Tag.sequence (varbinds_octets vbs) ++ xs) post)
      ≡ (facing (pre ++ element Tag.sequence (varbinds_octets vbs)) xs post, some vbs)
unfolding varbind_list
varbind_list-facing vbs pre xs post h hn =
    let c = varbinds_octets vbs in
    rw (facing_ok pre (element Tag.sequence c ++ xs) post) (
      ap unless_failed (
        in_scope-facing Tag.sequence (λ r. varbinds_loop (suc (length r.buf)) [] r) vbs c pre xs
          post refl refl hn
          (λ p q.
            varbinds_loop-facing vbs [] _ p q h hn
              (omega (arith, length-varbinds-le vbs, length-buf-facing p c q))))
      ∙ unless_failed_ok _ vbs (facing_ok (pre ++ element Tag.sequence c) xs post))
