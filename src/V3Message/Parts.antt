-- ===== src/V3Message/Parts.antt =====
-- The parts of `decodeV3Message` of src/V3Message.cpp on the parts that `encodeV3Message` wraps: the
-- header, the security parameters and the payload.
use snmpio.Ber.Reader.Fields
use snmpio.Common.{
  ℕ, ◌^◌, ◌<◌, Bool, true, false, some, Option, List, [], ◌∷◌, ◌++◌, length, ◌≡◌, refl, sym, ap,
  subst, ◌∙◌, arith, append_assoc,
}
use snmpio.Common.Int32.{ℤ, IsInt32}
use snmpio.Value.{Octets}
use snmpio.Ber.Tag
use snmpio.Ber.Writer.Shape.{element}
use snmpio.Ber.Reader
use snmpio.Ber.Reader.{Reader, Scope}
use snmpio.Ber.Reader.Cursor.{facing, facing_ok, facing_eq, facing_last}
use snmpio.Ber.RoundTrip.Header.{primitive_content-facing}
use snmpio.Ber.RoundTrip.Numbers.{integer-facing}
use snmpio.Ber.RoundTrip.Scope.{enter-facing, leave-facing, front, scope_on}
use snmpio.Usm.{SecurityLevel, level_bits}
use snmpio.V3Message.{V3Header, encode_flags, security_model_usm}
use snmpio.V3Message.Decode.{
  Step, proceed, level_of, header_fields, header_body, step_in_scope, check_header,
}
use snmpio.V3Message.Layout.{string_octets, int_octets, global_octets}

pub step_in_scope-facing :
    {A : Type 0} (body : Reader → Step A) (a : A) (c pre xs post : List ℕ)
    → length c < 2 ^ 32
    → body (facing (front Tag.sequence c pre) c (xs ++ post))
      ≡ proceed (facing (front Tag.sequence c pre ++ c) [] (xs ++ post)) a
    → step_in_scope body (facing pre (element Tag.sequence c ++ xs) post)
      ≡ proceed (facing (pre ++ element Tag.sequence c) xs post) a
unfolding step_in_scope
step_in_scope-facing {A} body a c pre xs post hn hb =
    ap (λ (m : Reader × Scope). let b = body m.0 in (Reader.leave m.1 b.0, b.1))
      (enter-facing Tag.sequence c pre xs post refl refl hn)
    ∙ ap (λ (b : Step A). (Reader.leave (scope_on Tag.sequence c pre xs) b.0, b.1)) hb
    ∙ ap (λ (r : Reader). proceed r a) (leave-facing Tag.sequence c pre xs post)

-- The flags are read back as the level and the request for a report.
flags_back :
    (level : SecurityLevel) (rep : Bool) (i m : ℤ) (r : Reader)
    → let h : V3Header = record {
      msg_id = i;
      max_size = m;
      level = level;
      reportable = rep;
      security_model = security_model_usm;
    } in
      header_fields (some i) (some m) (some (encode_flags h ∷ [])) (some security_model_usm) r
      ≡ proceed r h
unfolding header_fields encode_flags level_bits level_of
flags_back SecurityLevel.no_auth_no_priv true i m r = refl
flags_back SecurityLevel.no_auth_no_priv false i m r = refl
flags_back SecurityLevel.auth_no_priv true i m r = refl
flags_back SecurityLevel.auth_no_priv false i m r = refl
flags_back SecurityLevel.auth_priv true i m r = refl
flags_back SecurityLevel.auth_priv false i m r = refl

-- A header that the C++ type holds, of the one security model.
pub record IsUsmHeader (h : V3Header) : Type 0 where
  pub msg_id : IsInt32 h.msg_id
  pub max_size : IsInt32 h.max_size
  pub model : h.security_model ≡ security_model_usm

fields_back :
    (h : V3Header) (r : Reader)
    → h.security_model ≡ security_model_usm
    → header_fields
        (some h.msg_id)
        (some h.max_size)
        (some (encode_flags h ∷ []))
        (some h.security_model)
        r
      ≡ proceed r h
unfolding encode_flags
fields_back h r e =
    ap
      (λ (m : ℤ).
        header_fields (some h.msg_id) (some h.max_size) (some (encode_flags h ∷ [])) (some m) r)
      e
    ∙ flags_back h.level h.reportable h.msg_id h.max_size r
    ∙ ap (λ (m : ℤ). proceed r (record h { security_model = m })) (sym e)

pub header_body-facing :
    (h : V3Header) (p q : List ℕ)
    → IsUsmHeader h
    → header_body (facing p (global_octets h) q) ≡ proceed (facing (p ++ global_octets h) [] q) h
unfolding header_body global_octets
header_body-facing h p q hh =
    let i = int_octets h.msg_id in
    let m = int_octets h.max_size in
    let f = string_octets (encode_flags h ∷ []) in
    let s = int_octets h.security_model in
    let four : Option ℤ → Option ℤ → Option Octets → Reader × Option ℤ → Step V3Header =
      λ a b c x. header_fields a b c x.1 x.0 in
    let three : Option ℤ → Option ℤ → Reader × Option Octets → Step V3Header =
      λ a b x. four a b x.1 (Fields.integer Tag.integer x.0) in
    let two : Option ℤ → Reader × Option ℤ → Step V3Header =
      λ a x. three a x.1 (Reader.octet_string Tag.octet_string x.0) in
    let one : Reader × Option ℤ → Step V3Header = λ x. two x.1 (Fields.integer Tag.integer x.0) in
    ap one (integer-facing Tag.integer h.msg_id p (m ++ (f ++ s)) q refl refl hh.msg_id)
    ∙ ap (two (some h.msg_id))
        (integer-facing Tag.integer h.max_size (p ++ i) (f ++ s) q refl refl hh.max_size)
    ∙ ap (three (some h.msg_id) (some h.max_size)) (
        primitive_content-facing Tag.octet_string (encode_flags h ∷ []) ((p ++ i) ++ m) s q refl
          refl (omega arith))
    ∙ ap (four (some h.msg_id) (some h.max_size) (some (encode_flags h ∷ []))) (
        ap (Fields.integer Tag.integer) (facing_last (((p ++ i) ++ m) ++ f) s q)
        ∙ integer-facing Tag.integer h.security_model (((p ++ i) ++ m) ++ f) [] q refl refl
            (subst IsInt32 (sym hh.model) (omega arith)))
    ∙ fields_back h _ hh.model
    ∙ ap (λ (r : Reader). proceed r h) (facing_eq [] q (simp append_assoc))

pub check_header-facing :
    (h : V3Header) (p xs q : List ℕ)
    → h.security_model ≡ security_model_usm
    → check_header h (facing p xs q) ≡ proceed (facing p xs q) h
unfolding check_header
check_header-facing h p xs q e = rw (facing_ok p xs q, e) refl
