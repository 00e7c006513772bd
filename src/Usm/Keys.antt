-- ===== src/Usm/Keys.antt =====
-- The widths of what src/Usm.cpp derives: `localizedPrivKey` and `authDigest`.
use snmpio.Common.{
  ℕ, zero, suc, ◌+◌, ◌≤◌, ◌++◌, ltb, ◌==◌, length, take, length-append, length-take, Bool-cases,
  inl, inr, ◌≡◌, ap, arith,
}
use snmpio.Error.{crypto_failure, unsupported_auth_protocol, unsupported_priv_protocol}
use snmpio.Value.{Octets}
use snmpio.Usm.{
  AuthProtocol, Credentials, Crypto, done, or_crypto_failure, priv_key_size, auth_params_size,
  is_no_auth, password_to_key, localize_key, more_key, extend_loop, localized_priv_key, auth_digest,
}
use snmpio.Usm.Privacy.{done_inj, not_done, on_success-done}

module _ (crypto : Crypto) where
  extended :
      (f : ℕ) (creds : Credentials) (engine_id : Octets) (want : ℕ) (key long : Octets)
      → want ≤ length key + f
      → extend_loop crypto f creds engine_id want key ≡ done long
      → want ≤ length long
  unfolding extend_loop
  extended zero creds engine_id want key long hf h =
      omega (arith, hf, ap (λ (l : Octets). length l) (done_inj key long h))
  extended (suc f) creds engine_id want key long hf h = elim (Bool-cases (ltb (length key) want)) [
    | inr c ↦
        let enough : want ≤ length key = ground arith in
        omega (arith, enough, ap (λ (l : Octets). length l) (done_inj key long (rw c at h)))
    | inl c ↦
        let (more, (hm, ho)) =
          on_success-done (more_key crypto creds engine_id key) _ long (rw c at h) in
        elim (Bool-cases (length more == 0)) [
          | inl d ↦ absurd (not_done crypto_failure long (rw d at ho))
          | inr d ↦
              let some_octets : 1 ≤ length more = ground arith in
              extended f creds engine_id want (key ++ more) long
                (omega (arith, hf, some_octets, length-append key more)) (rw d at ho)
        ]
  ]

  -- A key that localizedPrivKey returns is exactly as wide as its privacy protocol asks for,
  -- whatever the width of the hash: the extension loop never ends short of that.
  pub length-localized_priv_key :
      (creds : Credentials) (engine_id key : Octets)
      → localized_priv_key crypto creds engine_id ≡ done key
      → length key ≡ priv_key_size creds.priv_protocol
  unfolding localized_priv_key
  length-localized_priv_key creds engine_id key h =
      let want = priv_key_size creds.priv_protocol in
      elim (Bool-cases (want == 0)) [
        | inl c ↦ absurd (not_done unsupported_priv_protocol key (rw c at h))
        | inr c ↦
            let (master, (_, h1)) =
              on_success-done (password_to_key crypto creds.auth_protocol creds.priv_password) _ key
                (rw c at h) in
            let (local, (_, h2)) =
              on_success-done (localize_key crypto creds.auth_protocol master engine_id) _ key h1 in
            let (long, (h3, h4)) =
              on_success-done (extend_loop crypto want creds engine_id want local) _ key h2 in
            let enough = extended want creds engine_id want local long (omega arith) h3 in
            let cut = ap (λ (l : Octets). length l) (done_inj (take want long) key h4) in
            omega (arith, enough, length-take want long, cut)
      ]

  -- A digest that authDigest returns is exactly as wide as the field of its protocol, whatever the
  -- width of the MAC.
  pub length-auth_digest :
      (p : AuthProtocol) (key message digest : Octets)
      → auth_digest crypto p key message ≡ done digest
      → length digest ≡ auth_params_size p
  unfolding auth_digest
  length-auth_digest p key message digest h = elim (Bool-cases (is_no_auth p)) [
    | inl c ↦ absurd (not_done unsupported_auth_protocol digest (rw c at h))
    | inr c ↦
        let (mac, (_, h1)) =
          on_success-done (or_crypto_failure (crypto.hmac p key message)) _ digest (rw c at h) in
        elim (Bool-cases (ltb (length mac) (auth_params_size p))) [
          | inl d ↦ absurd (not_done crypto_failure digest (rw d at h1))
          | inr d ↦
              let long : auth_params_size p ≤ length mac = ground arith in
              let cut =
                ap (λ (l : Octets). length l)
                  (done_inj (take (auth_params_size p) mac) digest (rw d at h1)) in
              omega (arith, long, length-take (auth_params_size p) mac, cut)
        ]
  ]
