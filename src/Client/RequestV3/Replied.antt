-- ===== src/Client/RequestV3/Replied.antt =====
-- `doRequestV3` of src/Client.cpp behind an exchange: a Report, an answer or an error.
use snmpio.Common.{
  ℕ, Bool, true, false, Option, none, some, ◌≡◌, ◌⊎◌, inl, inr, refl, sym, ap, ◌∙◌, subst, arith,
  Any, Any-map,
}
use snmpio.Common.Int32.{ℤ}
use snmpio.Error.{Errc}
use snmpio.Value.{Octets}
use snmpio.Pdu.{Pdu}
use snmpio.Usm.{Crypto, Credentials, done, is_authenticated, localized_auth_key}
use snmpio.Client.{
  Impl, Pending, Endpoint, Failure, library, agent, aborted, socket, Target, to_result,
}
use snmpio.Client.Report.{is_report}
use snmpio.Client.Clock.{handle_report, observe_engine_time}
use snmpio.Client.Deliver.Receive.{Justifies, IsSound}
use snmpio.Client.Strand.{Run}
use snmpio.Client.Exchange.Justified.{HasEnded}
use snmpio.Client.Strand.Silent.{
  observe_engine_time-IsSilent, handle_report-IsSilent, silent-IsSound,
}
use snmpio.Client.RequestV3.Given.{IsGivenV3, HasAnswerV3, given}
use snmpio.Client.Discover.Keyed.{request_at-same, answered_same}
use snmpio.Client.Discover.{request_at}
use snmpio.Client.RequestV3.{Completion, asked_v3, reported, after_exchange}

module _ (crypto : Crypto) (is_v6 : Endpoint → Bool) (open_socket : Bool → ℕ → Option ℕ)
    (salt : Run → ℕ) (target : Target) (creds : Credentials) (pdu : Pdu) where
  abbrev IsSettled : Completion → Type 0
  IsSettled = HasAnswerV3 crypto target creds

  module _ (again : Run → Completion) (may_retry : Bool)
      (next : (r : Run) → IsSound crypto r.heard r.impl → IsSettled (again r)) where
    abbrev behind : ℕ → Run × Option Failure → Completion
    behind ref = after_exchange crypto is_v6 open_socket salt target creds pdu again may_retry ref

    reported-HasAnswerV3 :
        (r : Run) (s : Impl) (failure : Option Errc)
        → IsSound crypto r.heard s
        → IsSettled (reported again r s failure)
    unfolding reported
    reported-HasAnswerV3 r s none w = next (record r { impl = s }) w
    reported-HasAnswerV3 r s (some e) w = (w, λ x. absurd x)

    after_exchange-cases :
        (ref : ℕ) (r : Run)
        → (behind ref (r, none)
            ≡ reported again r
                (handle_report r.now target.endpoint (request_at ref r.impl) may_retry r.impl).0
                (handle_report r.now target.endpoint (request_at ref r.impl) may_retry r.impl).1)
          ⊎ ((is_report (request_at ref r.impl).response.type ≡ false)
              × ((behind ref (r, none) ≡ (r, to_result (request_at ref r.impl).response))
                  ⊎ (behind ref (r, none) ≡ (
                    record r {
                      impl =
                          observe_engine_time r.now target.endpoint
                            (request_at ref r.impl).security
                            r.impl;
                    },
                    to_result (request_at ref r.impl).response,
                  ))))
    unfolding after_exchange
    after_exchange-cases ref r = ground arith

    pub after_exchange-HasAnswerV3 :
        (engine_id : Octets) (ks : Octets × Octets) (id : ℤ) (ref : ℕ) (r : Run)
        (failure : Option Failure)
        → (is_authenticated creds.level ≡ true
            → localized_auth_key crypto creds engine_id ≡ done ks.0)
        → HasEnded crypto is_v6 open_socket ref
            (asked_v3 target creds engine_id ks.0 ks.1 id)
            (r, failure)
        → IsSettled (behind ref (r, failure))
    after_exchange-HasAnswerV3 engine_id ks id ref r (some (agent n)) key (h, ok, never) =
        absurd (never n refl)
    after_exchange-HasAnswerV3 engine_id ks id ref r (some (library e)) key (h, ok, never) =
        unfold after_exchange in (h.sound, λ x. absurd x)
    after_exchange-HasAnswerV3 engine_id ks id ref r (some aborted) key (h, ok, never) =
        unfold after_exchange in (h.sound, λ x. absurd x)
    after_exchange-HasAnswerV3 engine_id ks id ref r (some (socket e)) key (h, ok, never) =
        unfold after_exchange in (h.sound, λ x. absurd x)
    after_exchange-HasAnswerV3 engine_id ks id ref r none key (h, ok, never) =
        let p = request_at ref r.impl in
        let (q, l, k) = h.kept in
        let same : q ≡ p = request_at-same ref q r.impl l in
        let found = h.sound.justified ref q l (answered_same ref q r.impl l (ok refl)) in
        elim (after_exchange-cases ref r) [
          | inl e ↦
              let (s, failure) = handle_report r.now target.endpoint p may_retry r.impl in
              subst IsSettled (sym e) (
                reported-HasAnswerV3 r s failure (
                  silent-IsSound crypto r.heard r.impl s
                    (handle_report-IsSilent r.now target.endpoint p may_retry r.impl) h.sound))
          | inr (nr, e) ↦
              let qr : is_report q.response.type ≡ false =
                ap (λ (x : Pending). is_report x.response.type) same ∙ nr in
              let given_q : Any (IsGivenV3 crypto target creds (to_result p.response)) r.heard =
                subst
                  (λ (x : Pending).
                    Any (IsGivenV3 crypto target creds (to_result x.response)) r.heard)
                  same
                  (Any-map (Justifies crypto q)
                    (IsGivenV3 crypto target creds (to_result q.response)) r.heard
                    (λ x. given crypto target creds engine_id ks id q x key qr k) found) in
              elim e [
                | inl f ↦ subst IsSettled (sym f) (h.sound, λ x. given_q)
                | inr f ↦ subst IsSettled (sym f) (
                  silent-IsSound crypto r.heard r.impl _
                      (observe_engine_time-IsSilent r.now target.endpoint p.security r.impl)
                      h.sound,
                  λ x. given_q,
                )
              ]
        ]
