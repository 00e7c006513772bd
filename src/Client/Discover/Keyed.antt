-- ===== src/Client/Discover/Keyed.antt =====
-- `ensureEngine` and the choice of the keys in src/Client.cpp: they leave the client's state sound, the
-- keys are those of the engine asked, and no discovery ends with an Agent's error-status.
use snmpio.Common.{
  ◌==◌, ℕ, true, false, none, some, List, [], ◌≡◌, ◌≢◌, ◌⊎◌, inl, inr, refl, sym, ap, ◌∙◌, subst,
  arith, Bool-cases, Option-cases,
}
use snmpio.Common.Int32.{ℤ}
use snmpio.Common.Map.{Map}
use snmpio.Error.{Errc}
use snmpio.Value.{Octets}
use snmpio.Usm.{Crypto, Credentials, Result, done, fault, is_authenticated, localized_auth_key}
use snmpio.Client.{Impl, Pending, Discovery, CacheKey, Endpoint, agent, Target, engine_at}
use snmpio.Client.Keys.{localized_key, localized_privacy_key}
use snmpio.Client.Keys.Derived.{localized_key-localized_auth_key}
use snmpio.Client.Deliver.Receive.{Heard, AreOfLibrary, IsSound}
use snmpio.Client.Strand.{Run}
use snmpio.Client.Strand.Sound.{derived-IsQuiet, derived-AreDerived, quiet-IsSound, wait-IsSound}
use snmpio.Client.Exchange.{answered_at}
use snmpio.Client.Discover.{
  discovery_result, request_at, with_privacy, keys_for, is_ready, join_discovery, ensure_engine,
}

join_discovery-keys :
    (at : Endpoint) (s : Impl)
    → ((join_discovery at s).0.pending ≡ s.pending)
      × ((join_discovery at s).0.requests ≡ s.requests)
      × ((join_discovery at s).0.next_ref ≡ s.next_ref)
      × ((join_discovery at s).0.keys ≡ s.keys)
unfolding join_discovery
join_discovery-keys at s = ground arith

join_discovery-AreOfLibrary :
    (at : Endpoint) (s : Impl) → AreOfLibrary s → AreOfLibrary (join_discovery at s).0
unfolding join_discovery
join_discovery-AreOfLibrary at s o ref d e n = elim (Option-cases (s.discovering at)) [
  | inr (r, f) ↦ o ref d (ground (arith, e, f)) n
  | inl f ↦ elim (Bool-cases (ref == s.next_discovery)) [
    | inr c ↦ o ref d (ground (arith, e, f, c)) n
    | inl c ↦
        let same : record { ec = none; finished = false } ≡ d = ground (arith, e, f, c) in
        subst (λ (x : Discovery). x.ec ≢ some (agent n)) same (cc)
  ]
]

pub Result-cases :
    {A : Type 0} → (x : Result A) → ((a : A) × (x ≡ done a)) ⊎ ((e : Errc) × (x ≡ fault e))
Result-cases (done a) = inl (a, refl)
Result-cases (fault e) = inr (e, refl)

pub request_at-same :
    (ref : ℕ) (q : Pending) (s : Impl) → s.requests ref ≡ some q → q ≡ request_at ref s
unfolding request_at
request_at-same ref q s l = ground (arith, l)

pub answered_same :
    (ref : ℕ) (q : Pending) (s : Impl)
    → s.requests ref ≡ some q
    → answered_at ref s ≡ true
    → q.answered ≡ true
unfolding answered_at
answered_same ref q s l a = ground (arith, l)

module _ (crypto : Crypto) where
  localized_key-IsSound :
      (creds : Credentials) (id : Octets) (heard : List Heard) (s : Impl)
      → IsSound crypto heard s
      → IsSound crypto heard (localized_key crypto creds id s).0
        × ((localized_key crypto creds id s).1 ≡ localized_auth_key crypto creds id)
  localized_key-IsSound creds id heard s w =
      let same = (localized_key-localized_auth_key crypto creds id s w.derived).1 in
      (
        quiet-IsSound crypto heard s (localized_key crypto creds id s).0
            (derived-IsQuiet crypto creds id false s) (derived-AreDerived crypto creds id false s)
            w,
        same,
      )

  localized_privacy_key-IsSound :
      (creds : Credentials) (id : Octets) (heard : List Heard) (s : Impl)
      → IsSound crypto heard s
      → IsSound crypto heard (localized_privacy_key crypto creds id s).0
  localized_privacy_key-IsSound creds id heard s w =
      quiet-IsSound crypto heard s (localized_privacy_key crypto creds id s).0
        (derived-IsQuiet crypto creds id true s) (derived-AreDerived crypto creds id true s) w

  -- The keys of an attempt.
  with_privacy-cases :
      (creds : Credentials) (id k : Octets) (s : Impl)
      → (((with_privacy crypto creds id k s).0 ≡ s)
          ⊎ ((with_privacy crypto creds id k s).0 ≡ (localized_privacy_key crypto creds id s).0))
        × ((ks : Octets × Octets) → (with_privacy crypto creds id k s).1 ≡ done ks → ks.0 ≡ k)
  unfolding with_privacy
  with_privacy-cases creds id k s = (ground arith, λ ks e. ground arith)

  with_privacy-IsSound :
      (creds : Credentials) (id k : Octets) (heard : List Heard) (s : Impl)
      → IsSound crypto heard s
      → IsSound crypto heard (with_privacy crypto creds id k s).0
  with_privacy-IsSound creds id k heard s w = elim (with_privacy-cases creds id k s).0 [
    | inl e ↦ subst (IsSound crypto heard) (sym e) w
    | inr e ↦
        subst (IsSound crypto heard) (sym e) (localized_privacy_key-IsSound creds id heard s w)
  ]

  abbrev pub HasKeys : Credentials → Octets → List Heard → Impl × Result (Octets × Octets) → Type 0
  HasKeys creds id heard (s, keys) =
      IsSound crypto heard s
      × ((ks : Octets × Octets)
          → keys ≡ done ks
          → is_authenticated creds.level ≡ true
          → localized_auth_key crypto creds id ≡ done ks.0)

  keys_for-cases :
      (creds : Credentials) (id : Octets) (s : Impl)
      → ((is_authenticated creds.level ≡ false)
          × (keys_for crypto creds id s ≡ with_privacy crypto creds id [] s))
        ⊎ (((e : Errc) × (keys_for crypto creds id s
                ≡ ((localized_key crypto creds id s).0, fault e)))
            ⊎ ((k : Octets) × ((localized_key crypto creds id s).1 ≡ done k)
                × (keys_for crypto creds id s
                    ≡ with_privacy crypto creds id k (localized_key crypto creds id s).0)))
  unfolding keys_for
  keys_for-cases creds id s = elim (Bool-cases (is_authenticated creds.level)) [
    | inr c ↦ inl (c, ground (arith, c))
    | inl c ↦ inr (elim (Result-cases (localized_key crypto creds id s).1) [
      | inr (e, f) ↦ inl (e, ground (arith, c, f))
      | inl (k, f) ↦ inr (k, f, ground (arith, c, f))
    ])
  ]

  pub keys_for-HasKeys :
      (creds : Credentials) (id : Octets) (heard : List Heard) (s : Impl)
      → IsSound crypto heard s
      → HasKeys creds id heard (keys_for crypto creds id s)
  keys_for-HasKeys creds id heard s w =
      let (w1, same) = localized_key-IsSound creds id heard s w in
      let s1 = (localized_key crypto creds id s).0 in
      elim (keys_for-cases creds id s) [
        | inl (c, e) ↦
            subst (HasKeys creds id heard) (sym e)
              (with_privacy-IsSound creds id [] heard s w, λ ks g a. absurd (cc (c, a)))
        | inr (inl (x, e)) ↦ subst (HasKeys creds id heard) (sym e) (w1, λ ks g a. absurd (cc (g)))
        | inr (inr (k, f, e)) ↦ subst (HasKeys creds id heard) (sym e) (
          with_privacy-IsSound creds id k heard s1 w1,
          λ ks g a. sym same ∙ f ∙ ap done (sym ((with_privacy-cases creds id k s1).1 ks g)),
        )
      ]

  join_discovery-IsSound :
      (at : Endpoint) (heard : List Heard) (s : Impl)
      → IsSound crypto heard s
      → IsSound crypto heard (join_discovery at s).0
  join_discovery-IsSound at heard s w =
      let (a, b, c, d) = join_discovery-keys at s in
      quiet-IsSound crypto heard s (join_discovery at s).0 (a, b, c)
        (λ (g, o). (
          λ k key e. g k key (sym (ap (λ (m : Map CacheKey Octets). m k) d) ∙ e),
          join_discovery-AreOfLibrary at s o,
        ))
        w

  discovery_result-agent :
      (ref : ℕ) (r : Run) (n : ℤ) → AreOfLibrary r.impl → discovery_result ref r ≢ some (agent n)
  unfolding discovery_result
  discovery_result-agent ref r n o h = elim (Option-cases (r.impl.discoveries ref)) [
    | inl e ↦ ground (arith, e, h)
    | inr (d, e) ↦ o ref d e n (ground (arith, e, h))
  ]

  pub ensure_engine-IsSound :
      (target : Target) (creds : Credentials) (r : Run)
      → IsSound crypto r.heard r.impl
      → IsSound crypto
          (ensure_engine crypto target creds r).0.heard
          (ensure_engine crypto target creds r).0.impl
  unfolding ensure_engine
  ensure_engine-IsSound target creds r w =
      elim (Bool-cases (is_ready creds (engine_at target.endpoint r.impl))) [
        | inl c ↦ rw c w
        | inr c ↦ rw c (
            wait-IsSound crypto (record r { impl = (join_discovery target.endpoint r.impl).0 })
              (join_discovery-IsSound target.endpoint r.heard r.impl w))
      ]

  pub ensure_engine-agent :
      (target : Target) (creds : Credentials) (r : Run) (n : ℤ)
      → IsSound crypto r.heard r.impl
      → (ensure_engine crypto target creds r).1 ≢ some (agent n)
  unfolding ensure_engine
  ensure_engine-agent target creds r n w =
      elim (Bool-cases (is_ready creds (engine_at target.endpoint r.impl))) [
        | inl c ↦ rw c (cc)
        | inr c ↦
            let w1 =
              wait-IsSound crypto (record r { impl = (join_discovery target.endpoint r.impl).0 })
                (join_discovery-IsSound target.endpoint r.heard r.impl w) in
            rw c (discovery_result-agent _ _ n w1.discovered)
      ]
