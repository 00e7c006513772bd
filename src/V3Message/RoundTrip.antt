-- ===== src/V3Message/RoundTrip.antt =====
-- `decodeV3Message` of src/V3Message.cpp on what `encodeV3Message` wraps, whatever the digest.
use snmpio.Common.{
  ℕ, suc, ◌+◌, ◌-◌, ◌^◌, ◌<◌, none, some, Option, [], ◌++◌, length, ◌≡◌, refl, ap, ◌∙◌, arith,
  length-append, append_assoc,
}
use snmpio.Common.Int32.{ℤ, IsInt32}
use snmpio.Error.{Errc}
use snmpio.Value.{Octets}
use snmpio.Ber.Tag
use snmpio.Ber.Writer.Shape.{element, length_bytes}
use snmpio.Ber.Reader
use snmpio.Ber.Reader.{Reader}
use snmpio.Ber.Reader.Cursor.{facing, facing_eq, facing_last, over-facing, pos-facing}
use snmpio.Ber.RoundTrip.Header.{primitive_content-facing}
use snmpio.Ber.RoundTrip.Numbers.{integer-facing}
use snmpio.Ber.RoundTrip.Scope
use snmpio.Ber.RoundTrip.Values.{length-element}
use snmpio.Pdu.{finished}
use snmpio.V3Message.{V3Header, UsmParameters, V3Message, version_v3}
use snmpio.V3Message.Decode.{
  Step, proceed, next_step, step_in_scope, header_body, check_header, check_version, decode_usm,
  decode_security, with_payload, v3_body, decode_v3_message,
}
use snmpio.V3Message.Layout.{
  string_octets, int_octets, head, user_octets, global_octets, body_octets,
}
use snmpio.V3Message.Frame
use snmpio.V3Message.Parts.{
  IsUsmHeader, step_in_scope-facing, header_body-facing, check_header-facing,
}
use snmpio.V3Message.Parameters.{received, decode_usm_lem, finished-facing}

security_from :
    (params : Octets) (usm : UsmParameters) (n : ℕ) (r : Reader)
    → decode_usm params ≡ (none, some (usm, n))
    → decode_security (some params) r ≡ proceed r (usm, (r.pos - length params) + n)
unfolding decode_security
security_from params usm n r h =
    ap
      (λ (p : Option Errc × Option (UsmParameters × ℕ)).
        let base = r.pos - length params in
        elim p.1 as (λ _. Step (UsmParameters × ℕ)) [
          | none ↦ (r, (p.0, none))
          | some u ↦ proceed r (u.0, base + u.1)
        ])
      h

-- The two ways to count: the encoder's subtractions, and the reader's position less what it borrowed.
offset_sum :
    (offset at before pvg pv p v vgs g gs string params content message body hc hb user : ℕ)
    → offset ≡ (user + 2) + (params - content) + (vgs - params) + (message - body)
    → at ≡ before
    → before ≡ pvg + string
    → pvg ≡ pv + g
    → pv ≡ p + v
    → vgs ≡ v + gs
    → gs ≡ g + string
    → params ≡ 1 + (hc + content)
    → message ≡ 1 + (hb + body)
    → p ≡ 1 + hb
    → params < string
    → (at - params) + (suc hc + (user + 2)) ≡ offset
offset_sum offset at before pvg pv p v vgs g gs string params content message body hc hb user e1 e2
      e3 e4 e5 e6 e7 e8 e9 e10 h =
    omega arith

-- The hypotheses on what is encoded: numbers of 32 bits, and a digest whose length is one octet.
pub record IsUsmMessage (h : V3Header) (usm : UsmParameters) (digest : Octets) : Type 0 where
  pub header : IsUsmHeader h
  pub boots : IsInt32 usm.boots
  pub time : IsInt32 usm.time
  pub digest_width : length digest < 128

module _ (h : V3Header) (usm : UsmParameters) (priv_params payload x : Octets)
    (hm : IsUsmMessage h usm x) (m : V3Message) where
  abbrev c : Octets
  c = Frame.content h usm priv_params payload x

  abbrev s : Octets
  s = Frame.params h usm priv_params payload x

  abbrev b : Octets
  b = Frame.body h usm priv_params payload x

  abbrev v : Octets
  v = int_octets version_v3

  abbrev g : Octets
  g = element Tag.sequence (global_octets h)

  abbrev offset : ℕ
  offset = length (Frame.front h usm priv_params payload x)

  abbrev p : Octets
  p = Scope.front Tag.sequence b []

  abbrev before_payload : Octets
  before_payload = ((p ++ v) ++ g) ++ string_octets s

  -- The payload is read as `m`, and nothing is left.
  abbrev pub IsRead : Type 0
  IsRead =
      with_payload h (received usm x priv_params, offset) (facing before_payload payload [])
      ≡ proceed (facing (before_payload ++ payload) [] []) m

  offset_lem :
      ((facing before_payload payload []).pos - length s)
        + (length (head Tag.sequence (length c)) + (length (user_octets usm) + 2))
      ≡ offset
  offset_lem =
      offset_sum offset (facing before_payload payload []).pos (length before_payload)
        (length ((p ++ v) ++ g)) (length (p ++ v)) (length p) (length v)
        (length (v ++ (g ++ string_octets s))) (length g) (length (g ++ string_octets s))
        (length (string_octets s)) (length s) (length c) (length (element Tag.sequence b))
        (length b) (length (length_bytes (length c))) (length (length_bytes (length b)))
        (length (user_octets usm)) (Frame.length-front h usm priv_params payload x hm.digest_width)
        (pos-facing before_payload payload []) (length-append ((p ++ v) ++ g) (string_octets s))
        (length-append (p ++ v) g) (length-append p v) (length-append v (g ++ string_octets s))
        (length-append g (string_octets s)) (Frame.length-element-size Tag.sequence c)
        (Frame.length-element-size Tag.sequence b) (omega arith) (length-element Tag.octet_string s)

  behind_params :
      length c < 2 ^ 32
      → decode_security (some s) (facing before_payload payload [])
        ≡ proceed (facing before_payload payload []) (received usm x priv_params, offset)
  behind_params hn =
      security_from s (received usm x priv_params) _ (facing before_payload payload [])
        (decode_usm_lem usm x priv_params hm.boots hm.time hm.digest_width hn)
      ∙ ap (λ (n : ℕ). proceed (facing before_payload payload []) (received usm x priv_params, n))
          offset_lem

  abbrev after_header : V3Header → Reader → Step V3Message
  after_header header r =
      let q = Reader.octet_string Tag.octet_string r in
      next_step (decode_security q.1 q.0) (with_payload header)

  abbrev after_version : Unit {0} → Reader → Step V3Message
  after_version u r = next_step (next_step (step_in_scope header_body r) check_header) after_header

  body-facing :
      IsRead → length b < 2 ^ 32 → v3_body (facing p b []) ≡ proceed (facing (p ++ b) [] []) m
  unfolding v3_body check_version body_octets
  body-facing hr hn =
      ap (λ (q : Reader × Option ℤ). next_step (check_version q.1 q.0) after_version)
        (integer-facing Tag.integer version_v3 p (g ++ (string_octets s ++ payload)) [] refl refl
          (omega arith))
      ∙ ap (λ (q : Step V3Header). next_step (next_step q check_header) after_header)
          (step_in_scope-facing header_body h (global_octets h) (p ++ v)
            (string_octets s ++ payload) [] (omega (arith, size_g))
            (header_body-facing h _ _ hm.header))
      ∙ ap (λ (q : Step V3Header). next_step q after_header)
          (check_header-facing h ((p ++ v) ++ g) (string_octets s ++ payload) [] hm.header.model)
      ∙ ap (λ (q : Reader × Option Octets). next_step (decode_security q.1 q.0) (with_payload h))
          (primitive_content-facing Tag.octet_string s ((p ++ v) ++ g) payload [] refl refl
            (omega (arith, size_s)))
      ∙ ap (λ (q : Step (UsmParameters × ℕ)). next_step q (with_payload h))
          (behind_params (omega (arith, size_s, length-element Tag.sequence c)))
      ∙ hr
      ∙ ap (λ (r : Reader). proceed r m) (facing_eq [] [] (simp append_assoc))
    where
      whole : length b ≡ length v + (length g + (length (string_octets s) + length payload))
      whole = omega (
        arith,
        length-append v (g ++ (string_octets s ++ payload)),
        length-append g (string_octets s ++ payload),
        length-append (string_octets s) payload,
      )

      size_g : length (global_octets h) < 2 ^ 32
      size_g = omega (arith, whole, hn, length-element Tag.sequence (global_octets h))

      size_s : length s < 2 ^ 32
      size_s = omega (arith, whole, hn, length-element Tag.octet_string s)

-- A message is decoded with the digest that stands in it, and with the offset at which that stands.
pub decode_v3_message-message :
    (h : V3Header) (usm : UsmParameters) (priv_params payload x : Octets)
    (hm : IsUsmMessage h usm x) (m : V3Message)
    → IsRead h usm priv_params payload x hm m
    → length (Frame.body h usm priv_params payload x) < 2 ^ 32
    → decode_v3_message (Frame.message h usm priv_params payload x) ≡ (none, some m)
unfolding decode_v3_message
decode_v3_message-message h usm priv_params payload x hm m hr hn =
    let b = Frame.body h usm priv_params payload x in
    ap (λ (r : Reader). let q = step_in_scope v3_body r in finished q.0 q.1)
      (over-facing (element Tag.sequence b) ∙ facing_last [] (element Tag.sequence b) [])
    ∙ ap (λ (q : Step V3Message). finished q.0 q.1)
        (step_in_scope-facing v3_body m b [] [] [] hn
          (body-facing h usm priv_params payload x hm m hr hn))
    ∙ finished-facing (element Tag.sequence b) m
