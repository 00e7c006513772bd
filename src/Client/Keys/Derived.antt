-- ===== src/Client/Keys/Derived.antt =====
-- The key cache of src/Client.cpp is transparent: it returns what the derivation would.
use snmpio.Common.{
  ℕ, zero, suc, ◌++◌, ltb, ◌==◌, length, take, inl, inr, true, false, some, [], if◌then◌else◌, ◌≡◌,
  refl, ap, ◌∙◌, arith, Bool-cases, Option-cases,
}
use snmpio.Error.{crypto_failure, unsupported_priv_protocol}
use snmpio.Value.{Octets}
use snmpio.Usm.{
  Credentials, Crypto, Result, done, fault, no_auth_no_priv, is_no_priv, localized_auth_key,
  localized_priv_key, more_key, extend_loop, priv_key_size, on_success, password_to_key,
  localize_key,
}
use snmpio.Client.{Impl, CacheKey}
use snmpio.Client.Keys.{
  same_key, same_key_iff, cache_key, cached, auth_row, priv_row, localized_key,
  localized_privacy_key,
}

-- What a row stands for.
abbrev row_credentials : CacheKey → Credentials
row_credentials k = record {
  user_name = [];
  level = no_auth_no_priv;
  auth_protocol = k.auth;
  auth_password = k.secret;
  priv_protocol = k.priv;
  priv_password = k.secret;
}

module _ (crypto : Crypto) where
  abbrev pub derive : CacheKey → Result Octets
  derive k =
      if is_no_priv k.priv
      then localized_auth_key crypto (row_credentials k) k.engine_id
      else localized_priv_key crypto (row_credentials k) k.engine_id

  -- Every entry of the cache is what its row's derivation gives.
  abbrev pub AreDerived : Impl → Type 0
  AreDerived s = (k : CacheKey) (key : Octets) → s.keys k ≡ some key → derive k ≡ done key

  cached-AreDerived :
      (k : CacheKey) (made : Result Octets) (s : Impl)
      → ((key : Octets) → made ≡ done key → derive k ≡ done key)
      → AreDerived s
      → AreDerived (cached k made s).0
  unfolding cached
  cached-AreDerived k made s m d j key h = elim (Option-cases (s.keys k)) [
    | inr (old, e) ↦ d j key (ground (arith, e, h))
    | inl e ↦
        elim made as (λ x. made ≡ x → derive j ≡ done key) [
          | fault x ↦ λ f. d j key (ground (arith, e, f, h))
          | done new ↦ λ f. elim (Bool-cases (same_key j k)) [
            | inr c ↦ d j key (ground (arith, e, f, c, h))
            | inl c ↦
                let eq : new ≡ key = ground (arith, e, f, c, h) in
                ap derive ((same_key_iff j k).0 c) ∙ m new f ∙ ap done eq
          ]
        ]
          refl
  ]

  cached-derive :
      (k : CacheKey) (made : Result Octets) (s : Impl)
      → derive k ≡ made
      → AreDerived s
      → (cached k made s).1 ≡ made
  unfolding cached
  cached-derive k made s m d = elim (Option-cases (s.keys k)) [
    | inr (old, e) ↦ let f = d k old e in ground (arith, e, f, m)
    | inl e ↦
        elim made as (λ x. made ≡ x → (cached k made s).1 ≡ made) [
          | fault x ↦ λ f. ground (arith, e, f)
          | done new ↦ λ f. ground (arith, e, f)
        ]
          refl
  ]

  auth_row-derive :
      (creds : Credentials) (id : Octets)
      → derive (auth_row creds id) ≡ localized_auth_key crypto creds id
  unfolding is_no_priv localized_auth_key
  auth_row-derive creds id = refl

  extend_loop-same :
      (f : ℕ) (c : Credentials) (id : Octets) (want : ℕ) (key : Octets)
      → extend_loop crypto f (row_credentials (priv_row c id)) id want key
        ≡ extend_loop crypto f c id want key
  unfolding extend_loop more_key
  extend_loop-same zero c id want key = refl
  extend_loop-same (suc f) c id want key = λ i.
      let next = on_success (more_key crypto c id key) (λ more.
        if length more == 0
        then fault crypto_failure
        else extend_loop-same f c id want (key ++ more) i) in
      if ltb (length key) want then next else done key

  priv_row-derive :
      (creds : Credentials) (id : Octets)
      → is_no_priv creds.priv_protocol ≡ false
      → derive (priv_row creds id) ≡ localized_priv_key crypto creds id
  unfolding localized_priv_key
  priv_row-derive creds id h = rw h (λ i.
      let want = priv_key_size creds.priv_protocol in
      if want == 0
      then fault unsupported_priv_protocol
      else on_success (password_to_key crypto creds.auth_protocol creds.priv_password) (λ master.
        on_success (localize_key crypto creds.auth_protocol master id) (λ key.
          on_success (extend_loop-same want creds id want key i) (λ long. done (take want long)))))

  -- A row with no privacy protocol is never derived as a privacy key.
  no_priv-fault :
      (creds : Credentials) (id : Octets)
      → is_no_priv creds.priv_protocol ≡ true
      → localized_priv_key crypto creds id ≡ fault unsupported_priv_protocol
  unfolding localized_priv_key priv_key_size is_no_priv
  no_priv-fault creds id h = ground (arith, h)

  pub localized_key-localized_auth_key :
      (creds : Credentials) (id : Octets) (s : Impl)
      → AreDerived s
      → AreDerived (localized_key crypto creds id s).0
        × ((localized_key crypto creds id s).1 ≡ localized_auth_key crypto creds id)
  unfolding localized_key
  localized_key-localized_auth_key creds id s d = (
    cached-AreDerived (auth_row creds id) (localized_auth_key crypto creds id) s
        (λ key e. auth_row-derive creds id ∙ e) d,
    cached-derive (auth_row creds id) (localized_auth_key crypto creds id) s
        (auth_row-derive creds id) d,
  )

  pub localized_privacy_key-AreDerived :
      (creds : Credentials) (id : Octets) (s : Impl)
      → AreDerived s
      → AreDerived (localized_privacy_key crypto creds id s).0
  unfolding localized_privacy_key
  localized_privacy_key-AreDerived creds id s d =
      cached-AreDerived (priv_row creds id) (localized_priv_key crypto creds id) s
        (λ key e. elim (Bool-cases (is_no_priv creds.priv_protocol)) [
          | inl c ↦ absurd (cc (no_priv-fault creds id c, e))
          | inr c ↦ priv_row-derive creds id c ∙ e
        ])
        d

  pub localized_privacy_key-localized_priv_key :
      (creds : Credentials) (id : Octets) (s : Impl)
      → is_no_priv creds.priv_protocol ≡ false
      → AreDerived s
      → (localized_privacy_key crypto creds id s).1 ≡ localized_priv_key crypto creds id
  unfolding localized_privacy_key
  localized_privacy_key-localized_priv_key creds id s h d =
      cached-derive (priv_row creds id) (localized_priv_key crypto creds id) s
        (priv_row-derive creds id h) d

  -- The cache of keys is transparent: as long as every entry is what its row derives, localizedKey
  -- returns what localizedAuthKey does and, if a privacy protocol is set, localizedPrivacyKey what
  -- localizedPrivKey does, errors included; and after either of them every entry is still what its
  -- row derives.
  pub cached_keys :
      (creds : Credentials) (id : Octets) (s : Impl)
      → is_no_priv creds.priv_protocol ≡ false
      → AreDerived s
      → ((localized_key crypto creds id s).1 ≡ localized_auth_key crypto creds id)
        × ((localized_privacy_key crypto creds id s).1 ≡ localized_priv_key crypto creds id)
        × AreDerived (localized_key crypto creds id s).0
        × AreDerived (localized_privacy_key crypto creds id s).0
  cached_keys creds id s h d =
      let (a, k) = localized_key-localized_auth_key creds id s d in
      (
        k,
        localized_privacy_key-localized_priv_key creds id s h d,
        a,
        localized_privacy_key-AreDerived creds id s d,
      )
