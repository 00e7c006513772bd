-- ===== src/V3Message/Signed.antt =====
-- The digest that `encodeV3Message` puts into a message is the one that `verifyAuth` computes
-- (src/V3Message.cpp).
use snmpio.Common.{
  ℕ, ◌+◌, true, false, none, some, Option, ◌++◌, ltb, le→ltb, ◌==◌, ==_iff, length, replicate,
  length-append, length-replicate, ◌≡◌, refl, sym, ap, ◌∙◌, arith,
}
use snmpio.Error.{Errc}
use snmpio.Value.{Octets}
use snmpio.Usm.{
  AuthProtocol, Crypto, Result, done, fault, is_authenticated, auth_params_size, auth_digest,
}
use snmpio.Usm.Privacy.{done_inj, on_success-done}
use snmpio.Usm.Keys.{length-auth_digest}
use snmpio.V3Message.{V3Header, UsmParameters, V3Message, overwrite, sign}
use snmpio.V3Message.Decode.{compare_digest, verify_auth}
use snmpio.V3Message.Layout.{overwrite_lem}
use snmpio.V3Message.Frame.{message, front, back, message_split, front_eq}

-- `CRYPTO_memcmp` of a run of octets with itself is zero.
abbrev pub IsReflexive : Crypto → Type 0
IsReflexive crypto = (a : Octets) → crypto.memcmp a a ≡ 0

verify_step :
    (crypto : Crypto) (auth : AuthProtocol) (key datagram blanked digest : Octets) (m : V3Message)
    → is_authenticated m.header.level ≡ true
    → (length m.security.auth_params == auth_params_size auth) ≡ true
    → ltb (length datagram) (m.auth_params_offset + length m.security.auth_params) ≡ false
    → overwrite (replicate (length m.security.auth_params) 0) m.auth_params_offset datagram
      ≡ blanked
    → auth_digest crypto auth key blanked ≡ done digest
    → compare_digest crypto digest m.security.auth_params ≡ none
    → verify_auth crypto datagram m auth key ≡ none
unfolding verify_auth
verify_step crypto auth key datagram blanked digest m hl hw hb ho ha hc =
    let answer : Result Octets → Option Errc = λ r. elim r as (λ _. Option Errc) [
      | fault e ↦ some e
      | done x ↦ compare_digest crypto x m.security.auth_params
    ] in
    rw (hl, hw, hb) (ap answer (ap (auth_digest crypto auth key) ho ∙ ha) ∙ hc)

same_digest : (crypto : Crypto) (a : Octets) → IsReflexive crypto → compare_digest crypto a a ≡ none
unfolding compare_digest
same_digest crypto a h =
    let same : (length a == length a) ≡ true = (==_iff (length a) (length a)).1 refl in
    rw (same, h a) refl

module _ (h : V3Header) (usm : UsmParameters) (priv_params payload : Octets) where
  -- One digest written over another of the same width.
  redigest :
      (new old : Octets)
      → length new ≡ length old
      → overwrite new
          (length (front h usm priv_params payload old))
          (message h usm priv_params payload old)
        ≡ message h usm priv_params payload new
  redigest new old e =
      ap (overwrite new (length (front h usm priv_params payload old)))
        (message_split h usm priv_params payload old)
      ∙ overwrite_lem new old (front h usm priv_params payload old) (back h usm priv_params payload)
          e
      ∙ ap (λ (f : Octets). f ++ (new ++ back h usm priv_params payload))
          (front_eq h usm priv_params payload old new (sym e))
      ∙ sym (message_split h usm priv_params payload new)

  module _ (crypto : Crypto) (auth : AuthProtocol) (key : Octets) where
    abbrev blank : Octets
    blank = replicate (auth_params_size auth) 0

    -- What is signed carries the digest of the message with a blank field.
    pub signed :
        (out : Octets)
        → sign crypto auth key true (
            done (
              message h usm priv_params payload blank,
              length (front h usm priv_params payload blank),
            ))
          ≡ done out
        → (digest : Octets) × ((auth_digest crypto auth key
                (message h usm priv_params payload blank)
              ≡ done digest)
            × ((length digest ≡ auth_params_size auth)
                × (out ≡ message h usm priv_params payload digest)))
    unfolding sign
    signed out e =
        let (digest, (ha, ho)) =
          on_success-done (auth_digest crypto auth key (message h usm priv_params payload blank)) _
            out e in
        let w =
          length-auth_digest crypto auth key (message h usm priv_params payload blank) digest ha in
        (
          digest,
          (
            ha,
            (
              w,
              sym (done_inj _ out ho)
                  ∙ redigest digest blank
                      (w ∙ sym (length-replicate {A = ℕ} (auth_params_size auth) 0)),
            ),
          ),
        )

    pub verified :
        (digest : Octets) (m : V3Message)
        → IsReflexive crypto
        → auth_digest crypto auth key (message h usm priv_params payload blank) ≡ done digest
        → length digest ≡ auth_params_size auth
        → is_authenticated m.header.level ≡ true
        → m.security.auth_params ≡ digest
        → m.auth_params_offset ≡ length (front h usm priv_params payload digest)
        → verify_auth crypto (message h usm priv_params payload digest) m auth key ≡ none
    verified digest m hr ha hw hl hd ho =
        let full = message h usm priv_params payload digest in
        let n : length m.security.auth_params ≡ length digest = ap (λ (l : Octets). length l) hd in
        let z : replicate (length m.security.auth_params) 0 ≡ blank =
          ap (λ (k : ℕ). replicate k 0) (n ∙ hw) in
        verify_step crypto auth key full (message h usm priv_params payload blank) digest m hl
          ((==_iff (length m.security.auth_params) (auth_params_size auth)).1 (n ∙ hw))
          (le→ltb (length full) _ (
            omega (
              arith,
              ho,
              n,
              ap (λ (l : Octets). length l) (message_split h usm priv_params payload digest),
              length-append (front h usm priv_params payload digest)
                  (digest ++ back h usm priv_params payload),
              length-append digest (back h usm priv_params payload),
            )))
          (ap (λ (l : Octets). overwrite l m.auth_params_offset full) z
            ∙ ap (λ (k : ℕ). overwrite blank k full) ho
            ∙ redigest blank digest (length-replicate {A = ℕ} (auth_params_size auth) 0 ∙ sym hw))
          ha (ap (compare_digest crypto digest) hd ∙ same_digest crypto digest hr)
