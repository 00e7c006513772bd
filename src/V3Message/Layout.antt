-- ===== src/V3Message/Layout.antt =====
-- The octets of an SNMPv3 message of src/V3Message.cpp, with the field for the digest set apart.
use snmpio.Common.{
  ℕ, ◌+◌, List, [], ◌∷◌, ◌++◌, length, replicate, ◌≡◌, refl, sym, ap, ◌∙◌, arith, length-append,
  append_assoc, set-append, length-append_one,
}
use snmpio.Common.Int32.{ℤ}
use snmpio.Value.{Octets}
use snmpio.Ber.Tag
use snmpio.Ber.Writer
use snmpio.Ber.Writer.{Writer}
use snmpio.Ber.Writer.Shape.{
  ready, element, length_bytes, integer_octets, integer-ready, octet_string-ready,
}
use snmpio.V3Message.{
  V3Header, UsmParameters, encode_flags, encode_usm_content, overwrite, put_global_data, version_v3,
}

-- A run of octets written over one of the same length.
pub overwrite_lem :
    (new old front back : List ℕ)
    → length new ≡ length old
    → overwrite new (length front) (front ++ (old ++ back)) ≡ front ++ (new ++ back)
unfolding overwrite
overwrite_lem [] [] front back h = refl
overwrite_lem [] (o ∷ os) front back h = absurd (omega arith)
overwrite_lem (n ∷ ns) [] front back h = absurd (omega arith)
overwrite_lem (n ∷ ns) (o ∷ os) front back h =
    ap (overwrite ns (length front + 1)) (set-append front o (os ++ back) n)
    ∙ ap (λ (l : List ℕ). overwrite ns (length front + 1) l)
        (sym (append_assoc front (n ∷ []) (os ++ back)))
    ∙ ap (λ (i : ℕ). overwrite ns i ((front ++ n ∷ []) ++ (os ++ back)))
        (sym (length-append_one front n))
    ∙ overwrite_lem ns os (front ++ n ∷ []) back (omega (arith, h))
    ∙ append_assoc front (n ∷ []) (ns ++ back)

abbrev pub string_octets : Octets → Octets
string_octets v = element Tag.octet_string v

abbrev pub int_octets : ℤ → Octets
int_octets v = element Tag.integer (integer_octets v)

-- What stands in front of the digest's field in the security parameters.
unfoldable pub user_octets : UsmParameters → Octets
user_octets usm =
    string_octets usm.engine_id
    ++ (int_octets usm.boots ++ (int_octets usm.time ++ string_octets usm.user_name))

-- The header of an element: its tag and its length.
abbrev pub head : ℕ → ℕ → Octets
head t n = t ∷ length_bytes n

unfoldable pub usm_octets : UsmParameters → Octets → Octets → Octets
usm_octets usm digest priv_params =
    user_octets usm ++ (string_octets digest ++ string_octets priv_params)

unfoldable pub global_octets : V3Header → Octets
global_octets h =
    int_octets h.msg_id
    ++ (int_octets h.max_size
        ++ (string_octets (encode_flags h ∷ []) ++ int_octets h.security_model))

unfoldable pub body_octets : V3Header → Octets → Octets → Octets
body_octets h usm_content payload =
    int_octets version_v3
    ++ (element Tag.sequence (global_octets h)
        ++ (string_octets (element Tag.sequence usm_content) ++ payload))

pub encode_usm_content_lem :
    (usm : UsmParameters) (width : ℕ) (priv_params buf : Octets)
    → encode_usm_content usm width priv_params (ready buf) ≡ (
      ready (buf ++ usm_octets usm (replicate width 0) priv_params),
      length buf + (length (user_octets usm) + 2),
    )
unfolding encode_usm_content usm_octets user_octets
encode_usm_content_lem usm width priv_params buf =
    let e = string_octets usm.engine_id in
    let b = int_octets usm.boots in
    let t = int_octets usm.time in
    let u = string_octets usm.user_name in
    let w1 : Writer.octet_string Tag.octet_string usm.user_name (
          Writer.integer Tag.integer usm.time (
            Writer.integer Tag.integer usm.boots
              (Writer.octet_string Tag.octet_string usm.engine_id (ready buf))))
        ≡ ready (buf ++ (e ++ (b ++ (t ++ u)))) =
      ap
        (λ w.
          Writer.octet_string Tag.octet_string usm.user_name
            (Writer.integer Tag.integer usm.time (Writer.integer Tag.integer usm.boots w)))
        (octet_string-ready Tag.octet_string usm.engine_id buf)
      ∙ ap
          (λ w.
            Writer.octet_string Tag.octet_string usm.user_name
              (Writer.integer Tag.integer usm.time w))
          (integer-ready Tag.integer usm.boots (buf ++ e))
      ∙ ap (Writer.octet_string Tag.octet_string usm.user_name)
          (integer-ready Tag.integer usm.time ((buf ++ e) ++ b))
      ∙ octet_string-ready Tag.octet_string usm.user_name (((buf ++ e) ++ b) ++ t)
      ∙ ap ready (simp append_assoc) in
    let n = buf ++ (e ++ (b ++ (t ++ u))) in
    let z : Octets = replicate width 0 in
    ap
      (λ (w : Writer). (
        Writer.octet_string Tag.octet_string priv_params (Writer.octet_string Tag.octet_string z w),
        length w.buf + 2,
      ))
      w1
    ∙ ap (λ (w : Writer). (w, length n + 2))
        (ap (Writer.octet_string Tag.octet_string priv_params)
            (octet_string-ready Tag.octet_string z n)
          ∙ octet_string-ready Tag.octet_string priv_params (n ++ string_octets z)
          ∙ ap ready (simp append_assoc))
    ∙ ap
        (λ (k : ℕ). (
          ready (buf ++ ((e ++ (b ++ (t ++ u))) ++ (string_octets z ++ string_octets priv_params))),
          k,
        ))
        (omega (arith, length-append buf (e ++ (b ++ (t ++ u)))))

pub global_data_lem :
    (h : V3Header) (buf : Octets) → put_global_data h (ready buf) ≡ ready (buf ++ global_octets h)
unfolding global_octets
global_data_lem h buf =
    let i = int_octets h.msg_id in
    let m = int_octets h.max_size in
    let f = string_octets (encode_flags h ∷ []) in
    ap
      (λ w. Writer.integer Tag.integer h.security_model (
        Writer.octet_string Tag.octet_string (encode_flags h ∷ [])
          (Writer.integer Tag.integer h.max_size w)))
      (integer-ready Tag.integer h.msg_id buf)
    ∙ ap
        (λ w.
          Writer.integer Tag.integer h.security_model
            (Writer.octet_string Tag.octet_string (encode_flags h ∷ []) w))
        (integer-ready Tag.integer h.max_size (buf ++ i))
    ∙ ap (Writer.integer Tag.integer h.security_model)
        (octet_string-ready Tag.octet_string (encode_flags h ∷ []) ((buf ++ i) ++ m))
    ∙ integer-ready Tag.integer h.security_model (((buf ++ i) ++ m) ++ f)
    ∙ ap ready (simp append_assoc)
