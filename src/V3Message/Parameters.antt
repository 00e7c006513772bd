-- ===== src/V3Message/Parameters.antt =====
-- The security parameters, as `encodeUsmContent` writes them and `decodeV3Message` reads them with a
-- reader of its own (src/V3Message.cpp).
use snmpio.Ber.Reader.Fields
use snmpio.Common.{
  ℕ, ◌+◌, ◌-◌, ◌^◌, ◌<◌, none, some, Option, List, [], ◌++◌, lt→ltb, length, ◌≡◌, refl, ap, ◌∙◌,
  arith, length-append, append_assoc,
}
use snmpio.Common.Int32.{ℤ, IsInt32}
use snmpio.Value.{Octets}
use snmpio.Ber.Tag
use snmpio.Ber.Writer.Shape.{element, length_bytes}
use snmpio.Ber.Reader
use snmpio.Ber.Reader.{Reader}
use snmpio.Ber.Reader.Cursor.{facing, facing_eq, facing_last, over-facing, pos-facing}
use snmpio.Ber.RoundTrip.Header.{primitive_content-facing}
use snmpio.Ber.RoundTrip.Numbers.{integer-facing}
use snmpio.Ber.RoundTrip.Scope.{front}
use snmpio.Ber.RoundTrip.Values.{length-element}
use snmpio.Pdu.{finished}
use snmpio.V3Message.{UsmParameters}
use snmpio.V3Message.Decode.{Step, proceed, step_in_scope, usm_fields, usm_body, decode_usm}
use snmpio.V3Message.Layout.{string_octets, int_octets, head, user_octets, usm_octets}
use snmpio.V3Message.Parts.{step_in_scope-facing}

one_octet : (n : ℕ) → n < 128 → length (length_bytes n) ≡ 1
unfolding length_bytes
one_octet n h = rw (lt→ltb n 0x80 h) refl

pub length-string : (x : Octets) → length x < 128 → length (string_octets x) ≡ length x + 2
unfolding element
length-string x h = omega (arith, length-append (length_bytes (length x)) x, one_octet (length x) h)

-- The parameters that are read: the digest and the privacy parameters are those of the datagram.
abbrev pub received : UsmParameters → Octets → Octets → UsmParameters
received usm digest priv_params = record usm { auth_params = digest; priv_params = priv_params }

module _ (usm : UsmParameters) (x priv_params p q : Octets) where
  abbrev usm_six :
      Option Octets
      → Option ℤ
      → Option ℤ
      → Option Octets
      → Option Octets
      → ℕ
      → Reader × Option Octets
      → Step (UsmParameters × ℕ)
  usm_six a b c d e n m = usm_fields a b c d e n m.1 m.0

  abbrev usm_five :
      Option Octets
      → Option ℤ
      → Option ℤ
      → Option Octets
      → Reader × Option Octets
      → Step (UsmParameters × ℕ)
  usm_five a b c d m = usm_six a b c d m.1 m.0.pos (Reader.octet_string Tag.octet_string m.0)

  abbrev usm_four :
      Option Octets → Option ℤ → Option ℤ → Reader × Option Octets → Step (UsmParameters × ℕ)
  usm_four a b c m = usm_five a b c m.1 (Reader.octet_string Tag.octet_string m.0)

  abbrev usm_three : Option Octets → Option ℤ → Reader × Option ℤ → Step (UsmParameters × ℕ)
  usm_three a b m = usm_four a b m.1 (Reader.octet_string Tag.octet_string m.0)

  abbrev usm_two : Option Octets → Reader × Option ℤ → Step (UsmParameters × ℕ)
  usm_two a m = usm_three a m.1 (Fields.integer Tag.integer m.0)

  abbrev usm_one : Reader × Option Octets → Step (UsmParameters × ℕ)
  usm_one m = usm_two m.1 (Fields.integer Tag.integer m.0)

  usm_body-facing :
      IsInt32 usm.boots
      → IsInt32 usm.time
      → length x < 128
      → length (usm_octets usm x priv_params) < 2 ^ 32
      → usm_body (facing p (usm_octets usm x priv_params) q)
        ≡ proceed
            (facing (p ++ usm_octets usm x priv_params) [] q)
            (received usm x priv_params, length p + (length (user_octets usm) + 2))
  unfolding usm_body usm_octets user_octets usm_fields
  usm_body-facing hb ht hx hn =
      let e = string_octets usm.engine_id in
      let b = int_octets usm.boots in
      let t = int_octets usm.time in
      let u = string_octets usm.user_name in
      let d = string_octets x in
      let v = string_octets priv_params in
      let f = ((((p ++ e) ++ b) ++ t) ++ u) ++ d in
      ap (λ (l : Octets). usm_body (facing p l q)) (simp append_assoc)
      ∙ ap usm_one (
          primitive_content-facing Tag.octet_string usm.engine_id p (b ++ (t ++ (u ++ (d ++ v)))) q
            refl refl (omega (arith, size)))
      ∙ ap (usm_two (some usm.engine_id))
          (integer-facing Tag.integer usm.boots (p ++ e) (t ++ (u ++ (d ++ v))) q refl refl hb)
      ∙ ap (usm_three (some usm.engine_id) (some usm.boots))
          (integer-facing Tag.integer usm.time ((p ++ e) ++ b) (u ++ (d ++ v)) q refl refl ht)
      ∙ ap (usm_four (some usm.engine_id) (some usm.boots) (some usm.time)) (
          primitive_content-facing Tag.octet_string usm.user_name (((p ++ e) ++ b) ++ t) (d ++ v) q
            refl refl (omega (arith, size)))
      ∙ ap (usm_five (some usm.engine_id) (some usm.boots) (some usm.time) (some usm.user_name)) (
          primitive_content-facing Tag.octet_string x ((((p ++ e) ++ b) ++ t) ++ u) v q refl refl
            (omega (arith, hx)))
      ∙ ap
          (usm_six (some usm.engine_id) (some usm.boots) (some usm.time) (some usm.user_name)
            (some x) (facing f v q).pos)
          (ap (Reader.octet_string Tag.octet_string) (facing_last f v q)
            ∙ primitive_content-facing Tag.octet_string priv_params f [] q refl refl
                (omega (arith, size)))
      ∙ ap (λ (n : ℕ). proceed (facing (f ++ v) [] q) (received usm x priv_params, n)) after
      ∙ ap
          (λ (r : Reader).
            proceed r (received usm x priv_params, length p + (length (e ++ (b ++ (t ++ u))) + 2)))
          (facing_eq [] q (simp append_assoc))
    where
      e' : Octets
      e' = string_octets usm.engine_id

      size : length usm.engine_id + (length usm.user_name + length priv_params) < 2 ^ 32
      size = omega (
        arith,
        hn,
        length-append
            (e' ++ (int_octets usm.boots ++ (int_octets usm.time ++ string_octets usm.user_name)))
            (string_octets x ++ string_octets priv_params),
        length-append e'
            (int_octets usm.boots ++ (int_octets usm.time ++ string_octets usm.user_name)),
        length-append (int_octets usm.boots) (int_octets usm.time ++ string_octets usm.user_name),
        length-append (int_octets usm.time) (string_octets usm.user_name),
        length-append (string_octets x) (string_octets priv_params),
        length-element Tag.octet_string usm.engine_id,
        length-element Tag.octet_string usm.user_name,
        length-element Tag.octet_string priv_params,
      )

      after :
          (facing
              (((((p ++ e') ++ int_octets usm.boots) ++ int_octets usm.time)
                  ++ string_octets usm.user_name)
                ++ string_octets x)
              (string_octets priv_params)
              q).pos
            - length x
          ≡ length p
            + (length (
                  e'
                  ++ (int_octets usm.boots ++ (int_octets usm.time ++ string_octets usm.user_name)))
                + 2)
      after = omega (
        arith,
        pos-facing
            (((((p ++ e') ++ int_octets usm.boots) ++ int_octets usm.time)
                ++ string_octets usm.user_name)
              ++ string_octets x)
            (string_octets priv_params) q,
        length-string x hx,
        length-append
            ((((p ++ e') ++ int_octets usm.boots) ++ int_octets usm.time)
              ++ string_octets usm.user_name)
            (string_octets x),
        length-append (((p ++ e') ++ int_octets usm.boots) ++ int_octets usm.time)
            (string_octets usm.user_name),
        length-append ((p ++ e') ++ int_octets usm.boots) (int_octets usm.time),
        length-append (p ++ e') (int_octets usm.boots),
        length-append p e',
        length-append e'
            (int_octets usm.boots ++ (int_octets usm.time ++ string_octets usm.user_name)),
        length-append (int_octets usm.boots) (int_octets usm.time ++ string_octets usm.user_name),
        length-append (int_octets usm.time) (string_octets usm.user_name),
      )

pub finished-facing {ℓ} :
    {A : Type ℓ} (pre : List ℕ) (a : A)
    → finished (facing pre [] []) (none, some a) ≡ (none, some a)
unfolding finished Reader.finish facing
finished-facing pre a = ground arith

-- A reader of its own over the parameters finds the digest behind the header of the SEQUENCE, the four
-- fields of the user and the two octets of its own header.
pub decode_usm_lem :
    (usm : UsmParameters) (x priv_params : Octets)
    → IsInt32 usm.boots
    → IsInt32 usm.time
    → length x < 128
    → length (usm_octets usm x priv_params) < 2 ^ 32
    → decode_usm (element Tag.sequence (usm_octets usm x priv_params)) ≡ (
      none,
      some (
        received usm x priv_params,
        length (head Tag.sequence (length (usm_octets usm x priv_params)))
            + (length (user_octets usm) + 2),
      ),
    )
unfolding decode_usm
decode_usm_lem usm x priv_params hb ht hx hn =
    let c = usm_octets usm x priv_params in
    let a : UsmParameters × ℕ = (
      received usm x priv_params,
      length (front Tag.sequence c []) + (length (user_octets usm) + 2),
    ) in
    ap (λ (r : Reader). let m = step_in_scope usm_body r in finished m.0 m.1)
      (over-facing (element Tag.sequence c) ∙ facing_last [] (element Tag.sequence c) [])
    ∙ ap (λ (m : Step (UsmParameters × ℕ)). finished m.0 m.1)
        (step_in_scope-facing usm_body a c [] [] [] hn
          (usm_body-facing usm x priv_params (front Tag.sequence c []) [] hb ht hx hn))
    ∙ finished-facing (element Tag.sequence c) a
