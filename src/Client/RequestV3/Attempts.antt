-- ===== src/Client/RequestV3/Attempts.antt =====
-- The loop of `doRequestV3` in src/Client.cpp ends within its two attempts.
use snmpio.Common.{ℕ, suc, Bool, true, false, Option, none, some, ◌≡◌, refl}
use snmpio.Error.{unknown_engine_id}
use snmpio.Value.{Octets}
use snmpio.Pdu.{Pdu}
use snmpio.V3Message.{encode_v3_message}
use snmpio.Usm.{Crypto, Credentials, done, fault}
use snmpio.Client.{Endpoint, EngineState, Failure, Target, library, no_response, engine_at}
use snmpio.Client.Clock.{handle_report}
use snmpio.Client.Strand.{Run, make_shared}
use snmpio.Client.Exchange.{transact}
use snmpio.Client.Ids.{next_id}
use snmpio.Client.Discover.{new_header, keys_for, ensure_engine}
use snmpio.Client.RequestV3.{
  Completion, reported, asked_v3, v3_usm, v3_scoped, after_exchange, ask_v3, attempt_v3, v3_round,
  v3_loop,
}

module _ (crypto : Crypto) (is_v6 : Endpoint → Bool) (open_socket : Bool → ℕ → Option ℕ)
    (salt : Run → ℕ) (target : Target) (creds : Credentials) (pdu : Pdu)
    (again other : Run → Completion) where
  after_exchange-last :
      (ref : ℕ) (r : Run) (failure : Option Failure)
      → after_exchange crypto is_v6 open_socket salt target creds pdu again false ref (r, failure)
        ≡ after_exchange crypto is_v6 open_socket salt target creds pdu other false ref (r, failure)
  unfolding after_exchange reported handle_report
  after_exchange-last ref r (some e) = refl
  after_exchange-last ref r none = refl

  ask_v3-last :
      (e : EngineState) (ks : Octets × Octets) (r : Run)
      → ask_v3 crypto is_v6 open_socket salt target creds pdu again false e ks r
        ≡ ask_v3 crypto is_v6 open_socket salt target creds pdu other false e ks r
  unfolding ask_v3
  ask_v3-last e (key, priv_key) r = λ i.
      let (s, id) = next_id r.impl in
      elim (encode_v3_message crypto (salt r) (new_header id creds.level)
          (v3_usm crypto is_v6 open_socket salt target creds pdu r e)
          (v3_scoped crypto is_v6 open_socket salt target creds pdu id e) creds.auth_protocol key
          creds.priv_protocol priv_key)
        as (λ x. Completion) [
          | fault x ↦ (record r { impl = s }, (some (library x), no_response))
          | done datagram ↦
              let (s1, ref) = make_shared (asked_v3 target creds e.engine_id key priv_key id) s in
              let out =
                transact crypto is_v6 open_socket target datagram id ref (record r { impl = s1 }) in
              after_exchange-last ref out.0 out.1 i
        ]

  attempt_v3-last :
      (e : EngineState) (r : Run)
      → attempt_v3 crypto is_v6 open_socket salt target creds pdu again false e r
        ≡ attempt_v3 crypto is_v6 open_socket salt target creds pdu other false e r
  unfolding attempt_v3
  attempt_v3-last e r = λ i.
      let (s, keys) = keys_for crypto creds e.engine_id r.impl in
      elim keys as (λ x. Completion) [
        | fault x ↦ (record r { impl = s }, (some (library x), no_response))
        | done ks ↦ ask_v3-last e ks (record r { impl = s }) i
      ]

  v3_round-last :
      (r : Run)
      → v3_round crypto is_v6 open_socket salt target creds pdu again false r
        ≡ v3_round crypto is_v6 open_socket salt target creds pdu other false r
  unfolding v3_round
  v3_round-last r = λ i.
      let (r1, failure) = ensure_engine crypto target creds r in
      elim failure as (λ x. Completion) [
        | some e ↦ (r1, (some e, no_response))
        | none ↦ elim (engine_at target.endpoint r1.impl) as (λ x. Completion) [
          | none ↦ (r1, (some (library unknown_engine_id), no_response))
          | some (id, e) ↦ attempt_v3-last e r1 i
        ]
      ]

module _ (crypto : Crypto) (is_v6 : Endpoint → Bool) (open_socket : Bool → ℕ → Option ℕ)
    (salt : Run → ℕ) (target : Target) (creds : Credentials) (pdu : Pdu) where
  -- The two attempts of an SNMPv3 request are enough: whatever happens, a loop that allowed any
  -- larger number would complete in the same way, so the code behind the loop is never reached.
  pub v3_loop-enough :
      (n : ℕ) (r : Run)
      → v3_loop crypto is_v6 open_socket salt target creds pdu (suc (suc n)) true r
        ≡ v3_loop crypto is_v6 open_socket salt target creds pdu 2 true r
  unfolding v3_loop
  v3_loop-enough n r = λ i.
      v3_round crypto is_v6 open_socket salt target creds pdu
        (λ r1.
          v3_round-last crypto is_v6 open_socket salt target creds pdu
            (v3_loop crypto is_v6 open_socket salt target creds pdu n false)
            (v3_loop crypto is_v6 open_socket salt target creds pdu 0 false) r1 i)
        true r
