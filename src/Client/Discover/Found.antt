-- ===== src/Client/Discover/Found.antt =====
-- `discoverEngine` of src/Client.cpp as a whole: what a discovery that succeeds has found.
use snmpio.Common.{ℕ, Bool, true, Option, none, some, ◌≡◌, ◌≢◌}
use snmpio.Common.Int32.{ℤ}
use snmpio.Common.Map.{octets_key}
use snmpio.Value.{Octets}
use snmpio.Usm.{Crypto, Credentials, Result, is_authenticated}
use snmpio.Client.{Impl, EngineState, Endpoint, Failure, agent, Target, new_pending}
use snmpio.Client.Ids.{next_id}
use snmpio.Client.Deliver.Receive.{IsSound}
use snmpio.Client.Strand.{Run, make_shared}
use snmpio.Client.Discover.{request_at, identify_engine, keys_for, after_identify}

-- An entry that is synchronised.
abbrev pub IsKnown : Octets → Impl → Type 0
IsKnown id s = (e : EngineState) × (s.engines id ≡ some e) × (e.time_synced ≡ true)

-- The state stays sound; what is found is no Agent's error-status; and if the level asks for
-- authentication, a success leaves an Engine synchronised.
abbrev pub HasDiscovered : Crypto → Credentials → Run × Option Failure → Type 0
HasDiscovered crypto creds (r, failure) =
    IsSound crypto r.heard r.impl
    × ((n : ℤ) → failure ≢ some (agent n))
    × (failure ≡ none → is_authenticated creds.level ≡ true → (id : Octets) × IsKnown id r.impl)

module _ (crypto : Crypto) (is_v6 : Endpoint → Bool) (open_socket : Bool → ℕ → Option ℕ)
    (salt : Run → ℕ) (target : Target) (creds : Credentials) where
  abbrev IsFound : Run × Option Failure → Type 0
  IsFound = HasDiscovered crypto creds

  abbrev learnt : ℕ → Run → Impl
  learnt ref r = identify_engine r.now target.endpoint (request_at ref r.impl).security r.impl

  abbrev behind : ℕ → Run × Option Failure → Run × Option Failure
  behind = after_identify crypto is_v6 open_socket salt target creds

  abbrev id_at : ℕ → Run → Octets
  id_at ref r = (request_at ref r.impl).security.engine_id

  abbrev keyed : ℕ → Run → Impl × Result (Octets × Octets)
  keyed ref r = keys_for crypto creds (id_at ref r) (learnt ref r)

  abbrev identity : Impl → Impl × ℕ
  identity s =
      make_shared
        (record new_pending { from = target.endpoint; v3 = true; request_id = (next_id s).1 })
        (next_id s).0
