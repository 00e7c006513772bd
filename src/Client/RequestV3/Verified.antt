-- ===== src/Client/RequestV3/Verified.antt =====
-- `doRequestV3` of src/Client.cpp: a request that completes with a Response has one that was verified.
use snmpio.Common.{
  ℕ, zero, suc, Bool, true, false, ◌&&◌, Option, some, ◌≡◌, ◌⊎◌, inl, inr, refl, sym, subst, arith,
  Bool-cases, Option-cases, Any,
}
use snmpio.Error.{
  Errc, client_stopped, unsupported_priv_protocol, unsupported_auth_protocol, unknown_engine_id,
}
use snmpio.Value.{Octets}
use snmpio.Pdu.{Pdu}
use snmpio.Usm.{
  Crypto, Credentials, Result, done, is_authenticated, is_encrypted, is_no_auth, is_no_priv,
  localized_auth_key,
}
use snmpio.V3Message.{encode_v3_message}
use snmpio.Client.{
  Impl, EngineState, Endpoint, Failure, library, agent, aborted, socket, Target, no_response,
  engine_at,
}
use snmpio.Client.Ids.{next_id}
use snmpio.Client.Deliver.Receive.{IsSound}
use snmpio.Client.Strand.{Run, no_signal, make_shared}
use snmpio.Client.Strand.Sound.{make_shared-IsSound}
use snmpio.Client.Strand.Holds.{SameRequest-refl}
use snmpio.Client.Exchange.{transact}
use snmpio.Client.Exchange.Justified.{transact-HasEnded, IsReply, next_id-IsSound}
use snmpio.Client.Discover.Keyed.{
  Result-cases, keys_for-HasKeys, ensure_engine-IsSound, ensure_engine-agent,
}
use snmpio.Client.RequestV3.Given.{IsGivenV3, HasAnswerV3}
use snmpio.Client.RequestV3.Replied.{after_exchange-HasAnswerV3}
use snmpio.Client.Discover.{new_header, keys_for, ensure_engine}
use snmpio.Client.RequestV3.{
  Completion, asked_v3, v3_usm, v3_scoped, ask_v3, after_exchange, attempt_v3, v3_round, v3_loop,
  do_request_v3,
}

module _ (crypto : Crypto) (is_v6 : Endpoint → Bool) (open_socket : Bool → ℕ → Option ℕ)
    (salt : Run → ℕ) (target : Target) (creds : Credentials) (pdu : Pdu) where
  abbrev IsSettled : Completion → Type 0
  IsSettled = HasAnswerV3 crypto target creds

  module _ (again : Run → Completion) (may_retry : Bool)
      (next : (r : Run) → IsSound crypto r.heard r.impl → IsSettled (again r)) where
    abbrev behind : ℕ → Run × Option Failure → Completion
    behind ref = after_exchange crypto is_v6 open_socket salt target creds pdu again may_retry ref

    -- The entry of the request into the client's state.
    abbrev entered : EngineState → Octets × Octets → Impl → Impl × ℕ
    entered e ks s =
        make_shared (asked_v3 target creds e.engine_id ks.0 ks.1 (next_id s).1) (next_id s).0

    ask_v3-cases :
        (e : EngineState) (ks : Octets × Octets) (r : Run)
        → ((x : Errc) × (ask_v3 crypto is_v6 open_socket salt target creds pdu again may_retry e ks
                r
              ≡ (record r { impl = (next_id r.impl).0 }, (some (library x), no_response))))
          ⊎ ((datagram : Octets) × (ask_v3 crypto is_v6 open_socket salt target creds pdu again
                  may_retry e ks r
                ≡ behind (entered e ks r.impl).1 (
                    transact crypto is_v6 open_socket target datagram
                      (next_id r.impl).1
                      (entered e ks r.impl).1
                      (record r { impl = (entered e ks r.impl).0 }))))
    unfolding ask_v3
    ask_v3-cases e ks r = elim (Result-cases (datagram_of e ks r)) [
      | inl (d, f) ↦ inr (d, ground (arith, f))
      | inr (x, f) ↦ inl (x, ground (arith, f))
    ]
      where
        datagram_of : EngineState → Octets × Octets → Run → Result Octets
        datagram_of e ks r =
            encode_v3_message crypto (salt r) (new_header (next_id r.impl).1 creds.level)
              (v3_usm crypto is_v6 open_socket salt target creds pdu r e)
              (v3_scoped crypto is_v6 open_socket salt target creds pdu (next_id r.impl).1 e)
              creds.auth_protocol ks.0 creds.priv_protocol ks.1

    ask_v3-HasAnswerV3 :
        (e : EngineState) (ks : Octets × Octets) (r : Run)
        → (is_authenticated creds.level ≡ true
            → localized_auth_key crypto creds e.engine_id ≡ done ks.0)
        → IsSound crypto r.heard r.impl
        → IsSettled (ask_v3 crypto is_v6 open_socket salt target creds pdu again may_retry e ks r)
    ask_v3-HasAnswerV3 e ks r key w = elim (ask_v3-cases e ks r) [
      | inl (x, f) ↦
          subst IsSettled (sym f) (next_id-IsSound crypto is_v6 open_socket r w, λ y. absurd y)
      | inr (datagram, f) ↦
          let id = (next_id r.impl).1 in
          let p = asked_v3 target creds e.engine_id ks.0 ks.1 id in
          let ref = (entered e ks r.impl).1 in
          let r1 : Run = record r { impl = (entered e ks r.impl).0 } in
          let (w1, here) =
            make_shared-IsSound crypto r.heard (next_id r.impl).0 p refl
              (next_id-IsSound crypto is_v6 open_socket r w) in
          let out = transact crypto is_v6 open_socket target datagram id ref r1 in
          subst IsSettled (sym f) (
            after_exchange-HasAnswerV3 crypto is_v6 open_socket salt target creds pdu again
              may_retry next e.engine_id ks id ref out.0 out.1 key
              (transact-HasEnded crypto is_v6 open_socket target datagram ref p r1
                (record { sound = w1; kept = (p, here, SameRequest-refl p) })))
    ]

    attempt_v3-cases :
        (e : EngineState) (r : Run)
        → ((x : Errc) × (attempt_v3 crypto is_v6 open_socket salt target creds pdu again may_retry e
                r
              ≡ (
                record r { impl = (keys_for crypto creds e.engine_id r.impl).0 },
                (some (library x), no_response),
              )))
          ⊎ ((ks : Octets × Octets) × ((keys_for crypto creds e.engine_id r.impl).1 ≡ done ks)
              × (attempt_v3 crypto is_v6 open_socket salt target creds pdu again may_retry e r
                  ≡ ask_v3 crypto is_v6 open_socket salt target creds pdu again may_retry e ks
                      (record r { impl = (keys_for crypto creds e.engine_id r.impl).0 })))
    unfolding attempt_v3
    attempt_v3-cases e r = elim (Result-cases (keys_for crypto creds e.engine_id r.impl).1) [
      | inl (ks, f) ↦ inr (ks, f, ground (arith, f))
      | inr (x, f) ↦ inl (x, ground (arith, f))
    ]

    attempt_v3-HasAnswerV3 :
        (e : EngineState) (r : Run)
        → IsSound crypto r.heard r.impl
        → IsSettled (attempt_v3 crypto is_v6 open_socket salt target creds pdu again may_retry e r)
    attempt_v3-HasAnswerV3 e r w =
        let (w1, key) = keys_for-HasKeys crypto creds e.engine_id r.heard r.impl w in
        elim (attempt_v3-cases e r) [
          | inl (x, f) ↦ subst IsSettled (sym f) (w1, λ y. absurd y)
          | inr (ks, f, g) ↦ subst IsSettled (sym g) (
              ask_v3-HasAnswerV3 e ks
                (record r { impl = (keys_for crypto creds e.engine_id r.impl).0 }) (key ks f) w1)
        ]

    v3_round-cases :
        (r : Run)
        → ((x : Failure) × ((ensure_engine crypto target creds r).1 ≡ some x)
            × (v3_round crypto is_v6 open_socket salt target creds pdu again may_retry r
                ≡ ((ensure_engine crypto target creds r).0, (some x, no_response))))
          ⊎ ((v3_round crypto is_v6 open_socket salt target creds pdu again may_retry r ≡ (
            (ensure_engine crypto target creds r).0,
            (some (library unknown_engine_id), no_response),
          ))
              ⊎ ((e : EngineState) × (v3_round crypto is_v6 open_socket salt target creds pdu again
                      may_retry r
                    ≡ attempt_v3 crypto is_v6 open_socket salt target creds pdu again may_retry e
                        (ensure_engine crypto target creds r).0)))
    unfolding v3_round
    v3_round-cases r = elim (Option-cases (ensure_engine crypto target creds r).1) [
      | inr (x, f) ↦ inl (x, f, ground (arith, f))
      | inl f ↦
          elim (Option-cases
            (engine_at target.endpoint (ensure_engine crypto target creds r).0.impl)) [
              | inl g ↦ inr (inl (ground (arith, f, g)))
              | inr (e, g) ↦ inr (inr (e.1, ground (arith, f, g)))
            ]
    ]

    v3_round-HasAnswerV3 :
        (r : Run)
        → IsSound crypto r.heard r.impl
        → IsSettled (v3_round crypto is_v6 open_socket salt target creds pdu again may_retry r)
    v3_round-HasAnswerV3 r w =
        let w1 = ensure_engine-IsSound crypto target creds r w in
        elim (v3_round-cases r) [
          | inl (agent n, f, g) ↦ absurd (ensure_engine-agent crypto target creds r n w f)
          | inl (library x, f, g) ↦ subst IsSettled (sym g) (w1, λ y. absurd y)
          | inl (aborted, f, g) ↦ subst IsSettled (sym g) (w1, λ y. absurd y)
          | inl (socket x, f, g) ↦ subst IsSettled (sym g) (w1, λ y. absurd y)
          | inr (inl g) ↦ subst IsSettled (sym g) (w1, λ y. absurd y)
          | inr (inr (e, g)) ↦
              subst IsSettled (sym g)
                (attempt_v3-HasAnswerV3 e (ensure_engine crypto target creds r).0 w1)
        ]

  v3_loop-HasAnswerV3 :
      (n : ℕ) (may_retry : Bool) (r : Run)
      → IsSound crypto r.heard r.impl
      → IsSettled (v3_loop crypto is_v6 open_socket salt target creds pdu n may_retry r)
  unfolding v3_loop
  v3_loop-HasAnswerV3 zero may_retry r w = (w, λ x. absurd x)
  v3_loop-HasAnswerV3 (suc n) may_retry r w =
      v3_round-HasAnswerV3 (v3_loop crypto is_v6 open_socket salt target creds pdu n false)
        may_retry (v3_loop-HasAnswerV3 n false) r w

  abbrev refused : Run → Errc → Completion
  refused r e = (r, (some (library e), no_response))

  do_request_v3-cases :
      (r : Run)
      → ((e : Errc) × ((do_request_v3 crypto is_v6 open_socket salt target creds pdu r
              ≡ refused r e)
            ⊎ (do_request_v3 crypto is_v6 open_socket salt target creds pdu r
                ≡ refused (record r { cancelled = no_signal }) e)))
        ⊎ (do_request_v3 crypto is_v6 open_socket salt target creds pdu r
            ≡ v3_loop crypto is_v6 open_socket salt target creds pdu 2 true
                (record r { cancelled = no_signal }))
  unfolding do_request_v3
  do_request_v3-cases r = elim (Bool-cases r.impl.stopping) [
    | inl c ↦ inl (client_stopped, inl (ground (arith, c)))
    | inr c ↦ elim (Bool-cases (is_encrypted creds.level && is_no_priv creds.priv_protocol)) [
      | inl d ↦ inl (unsupported_priv_protocol, inr (ground (arith, c, d)))
      | inr d ↦ elim (Bool-cases (is_authenticated creds.level && is_no_auth creds.auth_protocol)) [
        | inl e ↦ inl (unsupported_auth_protocol, inr (ground (arith, c, d, e)))
        | inr e ↦ inr (rw (c, d, e) refl)
      ]
    ]
  ]

  -- Whatever else the strand does while an SNMPv3 request discovers its Engine, waits and is tried
  -- again, from a sound state: the state stays sound; and if the request completes with a
  -- Response, with or without an error-status, then one of the datagrams that came in was from the
  -- Target asked and decodes to a message whose msgID is the request-id of a Response, which is
  -- the PDU of the message, opened by decryptScopedPdu if it is encrypted, and of which the
  -- completion is what toResult makes; and if the level asks for authentication, verifyAuth
  -- accepts that datagram under the key that localizedAuthKey derives from the Credentials for the
  -- Engine asked, which is the one that the message names unless the Engine asked has an empty
  -- engineID.
  pub do_request_v3-HasAnswer :
      (r : Run)
      → IsSound crypto r.heard r.impl
      → IsSound crypto
          (do_request_v3 crypto is_v6 open_socket salt target creds pdu r).0.heard
          (do_request_v3 crypto is_v6 open_socket salt target creds pdu r).0.impl
        × (IsReply (do_request_v3 crypto is_v6 open_socket salt target creds pdu r).1.0
            → Any
                (IsGivenV3 crypto target creds
                  (do_request_v3 crypto is_v6 open_socket salt target creds pdu r).1)
                (do_request_v3 crypto is_v6 open_socket salt target creds pdu r).0.heard)
  do_request_v3-HasAnswer r w = elim (do_request_v3-cases r) [
    | inl (e, inl f) ↦ subst IsSettled (sym f) (w, λ x. absurd x)
    | inl (e, inr f) ↦ subst IsSettled (sym f) (w, λ x. absurd x)
    | inr f ↦ subst IsSettled (sym f) (v3_loop-HasAnswerV3 2 true _ w)
  ]
