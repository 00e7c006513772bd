-- ===== src/Client/Discover/Synced.antt =====
-- The time-sync phase of `discoverEngine` in src/Client.cpp: the clock that it records was signed.
use snmpio.Common.{
  ℕ, Bool, true, false, Option, none, some, ◌≡◌, ◌≢◌, ◌⊎◌, inl, inr, refl, sym, ap, ◌∙◌, subst,
  arith, Bool-cases, Any, Any-map,
}
use snmpio.Common.Int32.{ℤ, same_int}
use snmpio.Common.Map.{octets_key, same_octets_iff}
use snmpio.Error.{Errc, not_in_time_window}
use snmpio.Value.{Octets}
use snmpio.Usm.{Crypto, Credentials, Result, AuthProtocol, done, localized_auth_key}
use snmpio.V3Message.{encode_v3_message, V3Message, UsmParameters}
use snmpio.V3Message.Decode.{decode_v3_message, verify_auth}
use snmpio.Client.{
  Impl, Pending, EngineState, Endpoint, Failure, library, agent, Target, no_security,
}
use snmpio.Client.Ids.{next_id}
use snmpio.Client.Report.{discovery_scoped_pdu, report_error, usm_stats_counter}
use snmpio.Client.Clock.{boots_ceiling}
use snmpio.Client.Deliver.Reply.{SameRequest}
use snmpio.Client.Deliver.Receive.{Heard, Justifies, IsSound}
use snmpio.Client.Strand.{Run, make_shared}
use snmpio.Client.Strand.Sound.{make_shared-IsSound}
use snmpio.Client.Strand.Holds.{SameRequest-refl}
use snmpio.Client.Strand.Silent.{IsSilent, silent-IsSound}
use snmpio.Client.Exchange.{transact}
use snmpio.Client.Exchange.Justified.{HasEnded, transact-HasEnded, next_id-IsSound}
use snmpio.Client.Discover.Keyed.{Result-cases, answered_same}
use snmpio.Client.Discover.{
  new_header, request_at, entry_or_new, set_baseline, synchronised, sync_pending, after_sync,
  time_sync,
}

-- The datagram came from the Target, bears this clock, and its digest is the one that the Credentials'
-- Localized Key for this Engine gives.
abbrev pub SignsClock : Crypto → Target → Credentials → Octets → EngineState → Heard → Type 0
SignsClock crypto target creds engine_id e (datagram, from) =
    (msg : V3Message) × (key : Octets) × ((decode_v3_message datagram).1 ≡ some msg)
    × (from ≡ target.endpoint)
    × (localized_auth_key crypto creds engine_id ≡ done key)
    × (verify_auth crypto datagram msg creds.auth_protocol key ≡ none)
    × (msg.security.boots ≡ e.boots)
    × (msg.security.time ≡ e.time)

abbrev baseline : ℕ → Octets → UsmParameters → Impl → EngineState
baseline now id security s = record (entry_or_new (s.engines id)) {
  boots = security.boots;
  time = security.time;
  at = now;
  time_synced = true;
}

module _ (crypto : Crypto) (target : Target) (creds : Credentials) (engine_id : Octets) where
  -- The state stays sound, what is found is no Agent's error-status, and a success leaves the Engine
  -- synchronised by a signed message, short of the ceiling of its boots.
  abbrev pub HasSynced : Run × Option Failure → Type 0
  HasSynced (r, failure) =
      IsSound crypto r.heard r.impl
      × ((n : ℤ) → failure ≢ some (agent n))
      × (failure ≡ none
          → (e : EngineState) × (r.impl.engines engine_id ≡ some e)
            × (e.time_synced ≡ true)
            × (same_int e.boots boots_ceiling ≡ false)
            × Any (SignsClock crypto target creds engine_id e) r.heard)

  signed :
      (key priv_key : Octets) (id : ℤ) (q : Pending) (e : EngineState) (h : Heard)
      → localized_auth_key crypto creds engine_id ≡ done key
      → q.reply_authenticated ≡ true
      → q.security.boots ≡ e.boots
      → q.security.time ≡ e.time
      → SameRequest (sync_pending target creds engine_id key priv_key id) q
      → Justifies crypto q h
      → SignsClock crypto target creds engine_id e h
  signed key priv_key id q e (datagram, from) derived a b t k (inl (msg, d, r, i, w)) =
      absurd (cc (w.version, k.v3))
  signed key priv_key id q e (datagram, from) derived a b t k (inr (msg, d, i, w)) =
      elim w.verified [
        | inr (x, y) ↦ absurd (cc (x, a))
        | inl (x, v) ↦ (
          msg,
          key,
          d,
          w.source ∙ k.from,
          derived,
          subst (λ (y : AuthProtocol). verify_auth crypto datagram msg y key ≡ none) k.auth_protocol
              (subst (λ (y : Octets). verify_auth crypto datagram msg q.auth_protocol y ≡ none)
                k.auth_key v),
          sym (ap (λ (u : UsmParameters). u.boots) w.security) ∙ b,
          sym (ap (λ (u : UsmParameters). u.time) w.security) ∙ t,
        )
      ]

  after_sync-cases :
      (ref : ℕ) (r : Run) (q : Pending)
      → r.impl.requests ref ≡ some q
      → ((x : Errc) × (after_sync engine_id ref (r, none) ≡ (r, some (library x))))
        ⊎ ((q.reply_authenticated ≡ true)
            × (same_int q.security.boots boots_ceiling ≡ false)
            × (after_sync engine_id ref (r, none)
                ≡ (record r { impl = set_baseline r.now engine_id q.security r.impl }, none)))
  unfolding after_sync synchronised request_at
  after_sync-cases ref r q l = elim (Bool-cases q.reply_authenticated) [
    | inr c ↦ inl (report_error (usm_stats_counter q.response), ground (arith, l, c))
    | inl c ↦ elim (Bool-cases (same_int q.security.boots boots_ceiling)) [
      | inl d ↦ inl (not_in_time_window, ground (arith, l, c, d))
      | inr d ↦ inr (c, d, ground (arith, l, c, d))
    ]
  ]

  set_baseline-IsSilent :
      (now : ℕ) (security : UsmParameters) (s : Impl)
      → IsSilent s (set_baseline now engine_id security s)
  unfolding set_baseline
  set_baseline-IsSilent now security s = ground arith

  set_baseline-engines :
      (now : ℕ) (security : UsmParameters) (s : Impl)
      → (set_baseline now engine_id security s).engines engine_id
        ≡ some (baseline now engine_id security s)
  unfolding set_baseline
  set_baseline-engines now security s = ground (arith, same_octets_iff engine_id engine_id)

  module _ (is_v6 : Endpoint → Bool) (open_socket : Bool → ℕ → Option ℕ) where
    after_sync-HasSynced :
        (key priv_key : Octets) (id : ℤ) (ref : ℕ) (r : Run) (failure : Option Failure)
        → localized_auth_key crypto creds engine_id ≡ done key
        → HasEnded crypto is_v6 open_socket ref
            (sync_pending target creds engine_id key priv_key id)
            (r, failure)
        → HasSynced (after_sync engine_id ref (r, failure))
    after_sync-HasSynced key priv_key id ref r (some x) derived (h, ok, never) =
        unfold after_sync in (h.sound, never, λ e. absurd (cc))
    after_sync-HasSynced key priv_key id ref r none derived (h, ok, never) =
        let (q, l, k) = h.kept in
        elim (after_sync-cases ref r q l) [
          | inl (x, f) ↦ subst HasSynced (sym f) (h.sound, λ n e. cc (e), λ e. absurd (cc (e)))
          | inr (a, c, f) ↦
              let e = baseline r.now engine_id q.security r.impl in
              let found = h.sound.justified ref q l (answered_same ref q r.impl l (ok refl)) in
              subst HasSynced (sym f) (
                silent-IsSound crypto r.heard r.impl
                    (set_baseline r.now engine_id q.security r.impl)
                    (set_baseline-IsSilent r.now q.security r.impl) h.sound,
                λ n g. cc (g),
                λ g. (
                  e,
                  set_baseline-engines r.now q.security r.impl,
                  refl,
                  c,
                  Any-map (Justifies crypto q) (SignsClock crypto target creds engine_id e) r.heard
                      (λ x. signed key priv_key id q e x derived a refl refl k) found,
                ),
              )
        ]

    module _ (salt : Run → ℕ) where
      abbrev asked_for : Octets × Octets → Impl → Impl × ℕ
      asked_for ks s =
          make_shared (sync_pending target creds engine_id ks.0 ks.1 (next_id s).1) (next_id s).0

      time_sync-cases :
          (ks : Octets × Octets) (r : Run)
          → ((x : Errc) × (time_sync crypto is_v6 open_socket salt target creds engine_id ks r
                ≡ (record r { impl = (next_id r.impl).0 }, some (library x))))
            ⊎ ((datagram : Octets) × (time_sync crypto is_v6 open_socket salt target creds engine_id
                    ks r
                  ≡ after_sync engine_id (asked_for ks r.impl).1 (
                      transact crypto is_v6 open_socket target datagram
                        (next_id r.impl).1
                        (asked_for ks r.impl).1
                        (record r { impl = (asked_for ks r.impl).0 }))))
      unfolding time_sync
      time_sync-cases ks r = elim (Result-cases encoded) [
        | inl (d, f) ↦ inr (d, ground (arith, f))
        | inr (x, f) ↦ inl (x, ground (arith, f))
      ]
        where
          encoded : Result Octets
          encoded =
              encode_v3_message crypto (salt r) (new_header (next_id r.impl).1 creds.level)
                (record no_security { engine_id = engine_id; user_name = creds.user_name })
                (discovery_scoped_pdu (next_id r.impl).1 engine_id) creds.auth_protocol ks.0
                creds.priv_protocol ks.1

      -- The time-sync phase of an Engine Discovery, with the key that localizedAuthKey derives for the
      -- Engine, from a sound state and whatever else happens meanwhile: the state stays sound, the
      -- phase ends with no error-status of an Agent, and if it succeeds the entry of the Engine is
      -- synchronised, its boots are below the ceiling, and its boots and time are those of a message
      -- that came in from the Target and that verifyAuth accepts under that key.
      pub time_sync-HasSynced :
          (ks : Octets × Octets) (r : Run)
          → localized_auth_key crypto creds engine_id ≡ done ks.0
          → IsSound crypto r.heard r.impl
          → HasSynced (time_sync crypto is_v6 open_socket salt target creds engine_id ks r)
      time_sync-HasSynced ks r derived w = elim (time_sync-cases ks r) [
        | inl (x, f) ↦
            subst HasSynced (sym f)
              (next_id-IsSound crypto is_v6 open_socket r w, λ n e. cc (e), λ e. absurd (cc (e)))
        | inr (datagram, f) ↦
            let id = (next_id r.impl).1 in
            let p = sync_pending target creds engine_id ks.0 ks.1 id in
            let ref = (asked_for ks r.impl).1 in
            let r1 : Run = record r { impl = (asked_for ks r.impl).0 } in
            let (w1, here) =
              make_shared-IsSound crypto r.heard (next_id r.impl).0 p refl
                (next_id-IsSound crypto is_v6 open_socket r w) in
            let out = transact crypto is_v6 open_socket target datagram id ref r1 in
            subst HasSynced (sym f) (
              after_sync-HasSynced ks.0 ks.1 id ref out.0 out.1 derived (
                transact-HasEnded crypto is_v6 open_socket target datagram ref p r1
                  (record { sound = w1; kept = (p, here, SameRequest-refl p) })))
      ]
