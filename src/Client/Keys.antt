-- ===== src/Client/Keys.antt =====
-- `localizedKey` and `localizedPrivacyKey` of src/Client.cpp: the cache of derived keys.
pub mod Derived
use snmpio.Common.{
  ℕ, Bool, true, false, Option, none, some, List, [], ◌∷◌, if◌then◌else◌, ◌≡◌, ◌↔◌, refl, arith,
}
use snmpio.Common.Map.{Key, Map, update, emplace}
use snmpio.Error.{Errc}
use snmpio.Value.{Octets}
use native.Mathlib.Decide.{ℕ_discrete}
use snmpio.Client.{Impl, CacheKey}
use snmpio.Usm.{
  AuthProtocol, PrivProtocol, no_priv, Credentials, Crypto, Result, done, fault, localized_auth_key,
  localized_priv_key,
}

pub CacheKey-discrete : Discrete CacheKey
CacheKey-discrete = hlevel ℕ_discrete

abbrev pub same_key : CacheKey → CacheKey → Bool
same_key a b = elim (CacheKey-discrete a b) [ yes e ↦ true | no e ↦ false ]

pub same_key_iff : (a b : CacheKey) → (same_key a b ≡ true) ↔ (a ≡ b)
same_key_iff a b =
    elim (CacheKey-discrete a b)
      as (λ d. (elim d as (λ x. Bool) [ yes e ↦ true | no e ↦ false ] ≡ true) ↔ (a ≡ b)) [
        | yes e ↦ (λ h. e, λ h. refl)
        | no e ↦ (λ h. absurd (cc), λ h. absurd (e h))
      ]

instance abbrev pub cache_key : Key CacheKey
cache_key = record { same = same_key; same_iff = same_key_iff }

-- The entry under a key, or what is derived, which is then kept.
unfoldable pub cached : CacheKey → Result Octets → Impl → Impl × Result Octets
cached k derived s = elim (s.keys k) [
  | some key ↦ (s, done key)
  | none ↦ elim derived [
    | fault e ↦ (s, fault e)
    | done key ↦ (record s { keys = emplace k key s.keys }, done key)
  ]
]

abbrev pub auth_row : Credentials → Octets → CacheKey
auth_row creds engine_id = record {
  engine_id = engine_id;
  auth = creds.auth_protocol;
  secret = creds.auth_password;
  priv = no_priv;
}

abbrev pub priv_row : Credentials → Octets → CacheKey
priv_row creds engine_id = record {
  engine_id = engine_id;
  auth = creds.auth_protocol;
  secret = creds.priv_password;
  priv = creds.priv_protocol;
}

module _ (crypto : Crypto) where
  unfoldable pub localized_key : Credentials → Octets → Impl → Impl × Result Octets
  localized_key creds engine_id =
      cached (auth_row creds engine_id) (localized_auth_key crypto creds engine_id)

  unfoldable pub localized_privacy_key : Credentials → Octets → Impl → Impl × Result Octets
  localized_privacy_key creds engine_id =
      cached (priv_row creds engine_id) (localized_priv_key crypto creds engine_id)
