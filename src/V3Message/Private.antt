-- ===== src/V3Message/Private.antt =====
-- `encodeV3Message` with encryption, then `decodeV3Message`, `verifyAuth` and `decryptScopedPdu`
-- (src/V3Message.cpp).
use snmpio.Common.{
  ℕ, ◌-◌, ◌%◌, ◌^◌, ◌≤◌, ◌<◌, true, false, none, some, Option, [], ◌++◌, length, replicate,
  Bool-cases, inl, inr, ◌≡◌, refl, sym, ap, ◌∙◌, arith,
}
use snmpio.Error.{Errc, unsupported_auth_protocol, unsupported_priv_protocol, decryption_failed}
use snmpio.Value.{Octets}
use snmpio.Ber.Tag
use snmpio.Ber.Writer
use snmpio.Ber.Writer.{Writer}
use snmpio.Ber.Writer.Shape.{ready, octet_string-ready}
use snmpio.Ber.Reader
use snmpio.Ber.Reader.{Reader}
use snmpio.Ber.Reader.Cursor.{facing_last, over-facing}
use snmpio.Ber.RoundTrip.Values.{length-element}
use snmpio.Usm.{
  AuthProtocol, PrivProtocol, auth_priv, Crypto, Result, done, fault, on_success, is_encrypted,
  is_authenticated, is_no_auth, is_no_priv, auth_params_size, priv_encrypt, priv_decrypt, is_des,
  padded,
}
use snmpio.Usm.Privacy.{
  not_done, on_success-done, IsInvertible, plaintext_of, priv_decrypt-priv_encrypt,
}
use snmpio.V3Message.{
  V3Header, UsmParameters, ScopedPdu, V3Message, no_scoped, decode_scoped_pdu, wrap_message, sign,
  encode_v3_message,
}
use snmpio.V3Message.Decode.{decrypt_scoped_pdu}
use snmpio.V3Message.Layout.{string_octets}
use snmpio.V3Message.Frame
use snmpio.V3Message.Parameters.{received}
use snmpio.V3Message.Payload.{
  scoped_content, scoped_octets, decode_scoped_pdu-facing, sealed_payload,
}
use snmpio.V3Message.Signed.{IsReflexive}
use snmpio.V3Message.Authentic.{IsUsmRequest, IsAuthentic, width_fits, authentic, scoped_written}

-- What `decodeV3Message` makes of an encrypted message.
abbrev pub sealed_as : V3Header → UsmParameters → Octets → Octets → Octets → ℕ → V3Message
sealed_as h usm priv_params ciphertext digest at = record {
  header = h;
  security = received usm digest priv_params;
  scoped = no_scoped;
  encrypted_pdu = ciphertext;
  auth_params_offset = at;
}

scoped_some : (s : ScopedPdu) → 1 ≤ length (scoped_octets s)
unfolding scoped_octets
scoped_some s = omega (arith, length-element Tag.sequence (scoped_content s))

-- The padding behind the ScopedPDU is not looked at.
opened_scoped :
    (priv : PrivProtocol) (h : V3Header) (usm : UsmParameters) (s : ScopedPdu)
    → IsUsmRequest h usm s
    → length (scoped_octets s) < 2 ^ 32
    → (decode_scoped_pdu (Reader.over (plaintext_of priv (scoped_octets s)))).1 ≡ some s
unfolding padded
opened_scoped priv h usm s hs hn = elim (Bool-cases (is_des priv)) [
  | inl d ↦
      let d0 = scoped_octets s in
      let z : Octets = replicate ((8 - length d0 % 8) % 8) 0 in
      rw d (
        ap (λ (r : Reader). (decode_scoped_pdu r).1) (over-facing (d0 ++ z))
        ∙ ap (λ (m : Reader × Option ScopedPdu). m.1)
            (decode_scoped_pdu-facing s [] z [] hs.pdu hn))
  | inr d ↦
      let d0 = scoped_octets s in
      rw d (
        ap (λ (r : Reader). (decode_scoped_pdu r).1) (over-facing d0 ∙ facing_last [] d0 [])
        ∙ ap (λ (m : Reader × Option ScopedPdu). m.1)
            (decode_scoped_pdu-facing s [] [] [] hs.pdu hn))
]

decrypted :
    (crypto : Crypto) (m : V3Message) (priv : PrivProtocol) (priv_key plain : Octets)
    (s : ScopedPdu)
    → priv_decrypt crypto priv priv_key m.security.boots m.security.time m.security.priv_params
        m.encrypted_pdu
      ≡ done plain
    → (decode_scoped_pdu (Reader.over plain)).1 ≡ some s
    → decrypt_scoped_pdu crypto m priv priv_key ≡ (none, record m { scoped = s })
unfolding decrypt_scoped_pdu
decrypted crypto m priv priv_key plain s hd ho =
    let inner : Option ScopedPdu → Option Errc × V3Message = λ o.
      elim o as (λ _. Option Errc × V3Message) [
        | none ↦ (some decryption_failed, m)
        | some t ↦ (none, record m { scoped = t })
      ] in
    ap
      (λ (r : Result Octets). elim r as (λ _. Option Errc × V3Message) [
        | fault e ↦ (some e, m)
        | done p ↦ inner (decode_scoped_pdu (Reader.over p)).1
      ])
      hd
    ∙ ap inner ho

module _ (crypto : Crypto) (salt : ℕ) (h : V3Header) (usm : UsmParameters) (s : ScopedPdu)
    (auth : AuthProtocol) (key : Octets) (priv : PrivProtocol) (priv_key : Octets)
    (hs : IsUsmRequest h usm s) (hr : IsReflexive crypto) (inverse : IsInvertible crypto) where
  abbrev signed_with : Octets × Octets → Result Octets
  signed_with c = sign crypto auth key true (
      wrap_message h usm (auth_params_size auth) c.0 (ready (scoped_octets s))
        (Writer.octet_string Tag.octet_string c.1))

  private_branch :
      is_encrypted h.level ≡ true
      → is_authenticated h.level ≡ true
      → is_no_auth auth ≡ false
      → is_no_priv priv ≡ false
      → encode_v3_message crypto salt h usm s auth key priv priv_key
        ≡ on_success
            (priv_encrypt crypto salt priv priv_key usm.boots usm.time (scoped_octets s))
            signed_with
  unfolding encode_v3_message
  private_branch he ha hn hp =
      rw (he, ha, hn, hp)
        (ap
          (λ (w : Writer).
            on_success (priv_encrypt crypto salt priv priv_key usm.boots usm.time w.buf) (λ c.
              sign crypto auth key true (
                wrap_message h usm (auth_params_size auth) c.0 w
                  (Writer.octet_string Tag.octet_string c.1))))
          (scoped_written crypto salt h usm s auth key priv priv_key hs))

  guards :
      (out : Octets)
      → is_encrypted h.level ≡ true
      → is_authenticated h.level ≡ true
      → encode_v3_message crypto salt h usm s auth key priv priv_key ≡ done out
      → (is_no_priv priv ≡ false) × (is_no_auth auth ≡ false)
  unfolding encode_v3_message
  guards out he ha e = elim (Bool-cases (is_no_priv priv)) [
    | inl c ↦ absurd (not_done unsupported_priv_protocol out (rw (he, c) at e))
    | inr c ↦ elim (Bool-cases (is_no_auth auth)) [
      | inl d ↦ absurd (not_done unsupported_auth_protocol out (rw (he, c, ha, d) at e))
      | inr d ↦ (c, d)
    ]
  ]

  -- A request that encodeV3Message signs and encrypts (level authPriv), of 32-bit numbers and a
  -- PDU that can be encoded, is decoded by decodeV3Message, if the datagram and the ScopedPDU are
  -- shorter than 2^32 octets, to the same header and user with the ScopedPDU closed; verifyAuth
  -- accepts it under the same protocol and key, and decryptScopedPdu opens it with the same
  -- privacy protocol and key to the same context and PDU, padded or not. The cipher is taken to
  -- undo itself in the other direction and to keep the length, and CRYPTO_memcmp of octets with
  -- themselves to be zero.
  pub encode_v3_message-private :
      (out : Octets)
      → h.level ≡ auth_priv
      → encode_v3_message crypto salt h usm s auth key priv priv_key ≡ done out
      → length (scoped_octets s) < 2 ^ 32
      → length out < 2 ^ 32
      → (priv_params : Octets) × ((ciphertext : Octets) × ((digest : Octets) × ((at : ℕ) × (let m =
                  sealed_as h usm priv_params ciphertext digest at in
                IsAuthentic crypto auth key out m
                × (decrypt_scoped_pdu crypto m priv priv_key ≡ (none, record m { scoped = s }))))))
  unfolding is_encrypted is_authenticated
  encode_v3_message-private out hl e hsize hn =
      let he : is_encrypted h.level ≡ true = ap is_encrypted hl in
      let ha : is_authenticated h.level ≡ true = ap is_authenticated hl in
      let (hp, hna) = guards out he ha e in
      let d0 = scoped_octets s in
      let (c, (hc, hsigned)) =
        on_success-done (priv_encrypt crypto salt priv priv_key usm.boots usm.time d0) signed_with
          out (sym (private_branch he ha hna hp) ∙ e) in
      let (digest, (at, authentic_at)) =
        authentic crypto salt h usm s auth key priv priv_key hs hr c.0 (string_octets c.1) out
          (sealed_as h usm c.0 c.1) ha
          (ap (sign crypto auth key true) (
              sym (
                Frame.wrap_message_lem h usm c.0 (string_octets c.1) (auth_params_size auth)
                  (ready d0) (Writer.octet_string Tag.octet_string c.1) (width_fits auth) refl
                  (octet_string-ready Tag.octet_string c.1)))
            ∙ hsigned)
          hn
          (λ digest hd hpay.
            sealed_payload h (received usm digest c.0) _ _ c.1 he
              (omega (arith, hpay, length-element Tag.octet_string c.1)))
          (λ digest at. (refl, (refl, refl))) in
      let back =
        priv_decrypt-priv_encrypt crypto inverse salt priv priv_key usm.boots usm.time d0 c.0 c.1
          (λ _. scoped_some s) hc in
      (
        c.0,
        (
          c.1,
          (
            digest,
            (
              at,
              (
                authentic_at,
                decrypted crypto (sealed_as h usm c.0 c.1 digest at) priv priv_key
                    (plaintext_of priv d0) s back (opened_scoped priv h usm s hs hsize),
              ),
            ),
          ),
        ),
      )
