-- ===== src/V3Message/Authentic.antt =====
-- `encodeV3Message`, then `decodeV3Message`, `verifyAuth` and `decryptScopedPdu` (src/V3Message.cpp).
use snmpio.Common.{
  ◌≤◌, take, le→ltb, ℕ, ◌^◌, ◌<◌, true, false, none, some, [], ◌++◌, length, replicate, Bool-cases,
  inl, inr, ◌≡◌, refl, sym, ap, ◌∙◌, arith,
}
use snmpio.Common.Int32.{IsInt32}
use snmpio.Error.{unsupported_auth_protocol}
use snmpio.Value.{Octets}
use snmpio.Ber.Tag
use snmpio.Ber.Writer
use snmpio.Ber.Writer.{Writer}
use snmpio.Ber.Writer.Shape.{ready}
use snmpio.Ber.RoundTrip.Values.{length-element}
use snmpio.Pdu.Representable.{IsRepresentablePdu}
use snmpio.Usm.{
  on_success, auth_digest, Result, AuthProtocol, PrivProtocol, auth_no_priv, Crypto, done,
  is_encrypted, is_authenticated, is_no_auth, auth_params_size,
}
use snmpio.Usm.Privacy.{not_done}
use snmpio.V3Message.{
  overwrite, V3Header, UsmParameters, ScopedPdu, V3Message, no_scoped, encode_scoped_pdu,
  decode_scoped_pdu, wrap_message, sign, encode_v3_message,
}
use snmpio.V3Message.Decode.{decode_v3_message, verify_auth}
use snmpio.V3Message.Frame
use snmpio.V3Message.Parts.{IsUsmHeader}
use snmpio.V3Message.Parameters.{received}
use snmpio.V3Message.Payload.{scoped_octets, encode_scoped_pdu-ready, plain_payload}
use snmpio.V3Message.RoundTrip.{IsUsmMessage, decode_v3_message-message}
use snmpio.V3Message.Signed.{IsReflexive, signed, verified}

-- What the C++ types of a message hold, of the one security model, with OIDs that X.690 can encode.
pub record IsUsmRequest (h : V3Header) (usm : UsmParameters) (s : ScopedPdu) : Type 0 where
  pub header : IsUsmHeader h
  pub boots : IsInt32 usm.boots
  pub time : IsInt32 usm.time
  pub pdu : IsRepresentablePdu s.pdu

pub width_fits : (auth : AuthProtocol) → auth_params_size auth < 128
unfolding auth_params_size
width_fits AuthProtocol.no_auth = omega arith
width_fits AuthProtocol.md5 = omega arith
width_fits AuthProtocol.sha1 = omega arith
width_fits AuthProtocol.sha224 = omega arith
width_fits AuthProtocol.sha256 = omega arith
width_fits AuthProtocol.sha384 = omega arith
width_fits AuthProtocol.sha512 = omega arith

raw-ready : (x b : Octets) → Writer.raw x (ready b) ≡ ready (b ++ x)
unfolding Writer.raw
raw-ready x b = refl

-- What a decoder makes of a datagram: a message that is authentic.
abbrev pub IsAuthentic : Crypto → AuthProtocol → Octets → Octets → V3Message → Type 0
IsAuthentic crypto auth key datagram m =
    (decode_v3_message datagram ≡ (none, some m)) × (verify_auth crypto datagram m auth key ≡ none)

module _ (crypto : Crypto) (salt : ℕ) (h : V3Header) (usm : UsmParameters) (s : ScopedPdu)
    (auth : AuthProtocol) (key : Octets) (priv : PrivProtocol) (priv_key : Octets)
    (hs : IsUsmRequest h usm s) where
  -- A message whose payload is read, from the octets that are signed.
  pub authentic :
      (hr : IsReflexive crypto) (priv_params payload out : Octets) (m : Octets → ℕ → V3Message)
      → is_authenticated h.level ≡ true
      → sign crypto auth key true (
          done (
            Frame.message h usm priv_params payload (replicate (auth_params_size auth) 0),
            length (Frame.front h usm priv_params payload (replicate (auth_params_size auth) 0)),
          ))
        ≡ done out
      → length out < 2 ^ 32
      → ((digest : Octets) (hd : IsUsmMessage h usm digest)
          → length payload < 2 ^ 32
          → snmpio.V3Message.RoundTrip.IsRead h usm priv_params payload digest hd
              (m digest (length (Frame.front h usm priv_params payload digest))))
      → ((digest : Octets) (at : ℕ)
          → ((m digest at).header ≡ h)
            × (((m digest at).security ≡ received usm digest priv_params)
                × ((m digest at).auth_params_offset ≡ at)))
      → (digest : Octets) × ((at : ℕ) × IsAuthentic crypto auth key out (m digest at))
  authentic hr priv_params payload out m hl e hn hread hm =
      let (digest, (ha, (hw, ho))) = signed h usm priv_params payload crypto auth key out e in
      let at : ℕ = length (Frame.front h usm priv_params payload digest) in
      let (m1, (m2, m3)) = hm digest at in
      let hd : IsUsmMessage h usm digest = record {
        header = hs.header;
        boots = hs.boots;
        time = hs.time;
        digest_width = omega (arith, hw, width_fits auth);
      } in
      let whole = ap (λ (l : Octets). length l) ho in
      let inner = length-element Tag.sequence (Frame.body h usm priv_params payload digest) in
      let rest : length payload < 2 ^ 32 =
        omega (arith, whole, inner, hn, Frame.length-body h usm priv_params payload digest) in
      (
        digest,
        (
          at,
          (
            ap decode_v3_message ho
                ∙ decode_v3_message-message h usm priv_params payload digest hd (m digest at)
                    (hread digest hd rest) (omega (arith, whole, inner, hn)),
            ap (λ (d : Octets). verify_auth crypto d (m digest at) auth key) ho
                ∙ verified h usm priv_params payload crypto auth key digest (m digest at) hr ha hw
                    (ap (λ (g : V3Header). is_authenticated g.level) m1 ∙ hl)
                    (ap (λ (u : UsmParameters). u.auth_params) m2) m3,
          ),
        ),
      )

  pub scoped_written : encode_scoped_pdu s Writer.new ≡ ready (scoped_octets s)
  unfolding Writer.new
  scoped_written = encode_scoped_pdu-ready s [] hs.pdu

  -- The encoder with its guards passed.
  plain_branch :
      is_encrypted h.level ≡ false
      → is_authenticated h.level ≡ true
      → is_no_auth auth ≡ false
      → encode_v3_message crypto salt h usm s auth key priv priv_key
        ≡ sign crypto auth key true (
            wrap_message h usm
              (auth_params_size auth)
              usm.priv_params
              (ready (scoped_octets s))
              (Writer.raw (scoped_octets s)))
  unfolding encode_v3_message
  plain_branch he ha hn =
      rw (he, ha, hn)
        (ap
          (λ (w : Writer).
            sign crypto auth key true
              (wrap_message h usm (auth_params_size auth) usm.priv_params w (Writer.raw w.buf)))
          scoped_written)

  no_auth_branch :
      (out : Octets)
      → is_encrypted h.level ≡ false
      → is_authenticated h.level ≡ true
      → is_no_auth auth ≡ true
      → ¬ (encode_v3_message crypto salt h usm s auth key priv priv_key ≡ done out)
  unfolding encode_v3_message
  no_auth_branch out he ha hn e = not_done unsupported_auth_protocol out (rw (he, ha, hn) at e)

  -- A request that encodeV3Message signs without encryption (level authNoPriv), of 32-bit numbers
  -- and a PDU that can be encoded, is decoded by decodeV3Message, if the datagram is shorter than
  -- 2^32 octets, to the same header, user, context and PDU, and verifyAuth accepts it under the
  -- same protocol and key: the digest stands where the decoder says, and is the one of the message
  -- with that field blank. CRYPTO_memcmp of octets with themselves is taken to be zero.
  pub encode_v3_message-IsAuthentic :
      (hr : IsReflexive crypto) (out : Octets)
      → h.level ≡ auth_no_priv
      → encode_v3_message crypto salt h usm s auth key priv priv_key ≡ done out
      → length out < 2 ^ 32
      → (digest : Octets) × ((at : ℕ) × IsAuthentic crypto auth key out (record {
        header = h;
        security = received usm digest usm.priv_params;
        scoped = s;
        encrypted_pdu = [];
        auth_params_offset = at;
      }))
  unfolding is_encrypted is_authenticated
  encode_v3_message-IsAuthentic hr out hl e hn =
      let he : is_encrypted h.level ≡ false = ap is_encrypted hl in
      let ha : is_authenticated h.level ≡ true = ap is_authenticated hl in
      elim (Bool-cases (is_no_auth auth)) [
        | inl c ↦ absurd (no_auth_branch out he ha c e)
        | inr c ↦
            authentic hr usm.priv_params (scoped_octets s) out
              (λ digest at. record {
                header = h;
                security = received usm digest usm.priv_params;
                scoped = s;
                encrypted_pdu = [];
                auth_params_offset = at;
              })
              ha
              (ap (sign crypto auth key true) (
                  sym (
                    Frame.wrap_message_lem h usm usm.priv_params (scoped_octets s)
                      (auth_params_size auth) (ready (scoped_octets s))
                      (Writer.raw (scoped_octets s)) (width_fits auth) refl
                      (raw-ready (scoped_octets s))))
                ∙ sym (plain_branch he ha c)
                ∙ e)
              hn
              (λ digest hd hp.
                plain_payload h (received usm digest usm.priv_params) _ _ s he hs.pdu hp)
              (λ digest at. (refl, (refl, refl)))
      ]

-- A MAC that OpenSSL computes, and that is as wide as the protocol's field at least.
abbrev pub HasMac : Crypto → AuthProtocol → Octets → Type 0
HasMac crypto auth key =
    (text : Octets)
    → (mac : Octets) × ((crypto.hmac auth key text ≡ some mac)
        × (auth_params_size auth ≤ length mac))

auth_digest-done :
    (crypto : Crypto) (auth : AuthProtocol) (key text : Octets)
    → is_no_auth auth ≡ false
    → HasMac crypto auth key
    → (digest : Octets) × (auth_digest crypto auth key text ≡ done digest)
unfolding auth_digest
auth_digest-done crypto auth key text hn hm =
    let (mac, (e, w)) = hm text in
    (
      take (auth_params_size auth) mac,
      rw (hn, e, le→ltb (length mac) (auth_params_size auth) w) refl,
    )

sign-done :
    (crypto : Crypto) (auth : AuthProtocol) (key text : Octets) (at : ℕ)
    → is_no_auth auth ≡ false
    → HasMac crypto auth key
    → (out : Octets) × (sign crypto auth key true (done (text, at)) ≡ done out)
unfolding sign
sign-done crypto auth key text at hn hm =
    let (digest, e) = auth_digest-done crypto auth key text hn hm in
    (
      overwrite digest at text,
      ap (λ (r : Result Octets). on_success r (λ d. done (overwrite d at text))) e,
    )

-- encodeV3Message returns a datagram for every request that is to be signed without encryption
-- (level authNoPriv), of 32-bit numbers and a PDU that can be encoded, under an authentication
-- protocol for which OpenSSL computes MACs at least as wide as the digest field.
pub encode_v3_message-done :
    (crypto : Crypto) (salt : ℕ) (h : V3Header) (usm : UsmParameters) (s : ScopedPdu)
    (auth : AuthProtocol) (key : Octets) (priv : PrivProtocol) (priv_key : Octets)
    → IsUsmRequest h usm s
    → h.level ≡ auth_no_priv
    → is_no_auth auth ≡ false
    → HasMac crypto auth key
    → (out : Octets) × (encode_v3_message crypto salt h usm s auth key priv priv_key ≡ done out)
unfolding is_encrypted is_authenticated
encode_v3_message-done crypto salt h usm s auth key priv priv_key hs hl hn hm =
    let blank : Octets = replicate (auth_params_size auth) 0 in
    let d0 = scoped_octets s in
    let (out, e) =
      sign-done crypto auth key (Frame.message h usm usm.priv_params d0 blank)
        (length (Frame.front h usm usm.priv_params d0 blank)) hn hm in
    (
      out,
      plain_branch crypto salt h usm s auth key priv priv_key hs (ap is_encrypted hl)
            (ap is_authenticated hl) hn
          ∙ ap (sign crypto auth key true) (
              Frame.wrap_message_lem h usm usm.priv_params d0 (auth_params_size auth) (ready d0)
                (Writer.raw d0) (width_fits auth) refl (raw-ready d0))
          ∙ e,
    )
