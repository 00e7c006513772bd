-- ===== src/Client/RequestV3/Given.antt =====
-- What a Response to `doRequestV3` of src/Client.cpp is: the answer of the Target asked, verified.
use snmpio.Common.{
  true, false, Option, none, some, [], ◌≡◌, ◌⊎◌, inl, inr, refl, sym, ap, ◌∙◌, subst, Any,
}
use snmpio.Common.Int32.{ℤ}
use snmpio.Value.{Octets}
use snmpio.Pdu.{Pdu}
use snmpio.Usm.{
  Crypto, Credentials, AuthProtocol, PrivProtocol, done, is_authenticated, localized_auth_key,
}
use snmpio.V3Message.{V3Message, UsmParameters}
use snmpio.V3Message.Decode.{decode_v3_message, verify_auth}
use snmpio.Client.{Pending, Endpoint, Failure, Target, Response, to_result}
use snmpio.Client.Report.{is_report, is_response}
use snmpio.Client.Deliver.Reply.{SameRequest, IsOpened, V3Reply}
use snmpio.Client.Deliver.Receive.{Heard, Justifies, IsSound}
use snmpio.Client.Exchange.Justified.{IsReply}
use snmpio.Client.RequestV3.{Completion, asked_v3}

-- The datagram came from the Target asked, under the number of the request; the Response that the
-- completion tells of is its PDU, opened with the privacy key if it is encrypted; and at an
-- authenticated level its digest is the one that the Credentials' Localized Key gives, for the Engine
-- that sent it.
abbrev pub IsGivenV3 : Crypto → Target → Credentials → Option Failure × Response → Heard → Type 0
IsGivenV3 crypto target creds outcome (datagram, from) =
    (msg : V3Message) × (reply : Pdu) × (priv_key : Octets) × ((decode_v3_message datagram).1
      ≡ some msg)
    × (from ≡ target.endpoint)
    × (is_response reply.type ≡ true)
    × (msg.header.msg_id ≡ reply.request_id)
    × IsOpened crypto msg creds.priv_protocol priv_key reply
    × (outcome ≡ to_result reply)
    × (is_authenticated creds.level ≡ true
        → (engine_id : Octets) × (key : Octets) × (localized_auth_key crypto creds engine_id
            ≡ done key)
          × ((engine_id ≡ []) ⊎ (msg.security.engine_id ≡ engine_id))
          × (verify_auth crypto datagram msg creds.auth_protocol key ≡ none))

module _ (crypto : Crypto) (target : Target) (creds : Credentials) where
  -- The state stays sound, and a Response that the completion tells of was in a datagram that came in.
  abbrev pub HasAnswerV3 : Completion → Type 0
  HasAnswerV3 (r, outcome) =
      IsSound crypto r.heard r.impl
      × (IsReply outcome.0 → Any (IsGivenV3 crypto target creds outcome) r.heard)

  -- A Response was verified if the level asks for it.
  verified :
      (engine_id key priv_key datagram : Octets) (from : Endpoint) (id : ℤ) (q : Pending)
      (msg : V3Message)
      → is_authenticated creds.level ≡ true
      → is_report q.response.type ≡ false
      → SameRequest (asked_v3 target creds engine_id key priv_key id) q
      → V3Reply crypto from datagram msg q
      → verify_auth crypto datagram msg creds.auth_protocol key ≡ none
  verified engine_id key priv_key datagram from id q msg auth nr k w = elim w.verified [
    | inl (x, v) ↦
        subst (λ (y : AuthProtocol). verify_auth crypto datagram msg y key ≡ none) k.auth_protocol
          (subst (λ (y : Octets). verify_auth crypto datagram msg q.auth_protocol y ≡ none)
            k.auth_key v)
    | inr (x, inl y) ↦ absurd (cc (y, k.auth_required, auth))
    | inr (x, inr (plain, unsigned, report)) ↦ elim w.content [
      | inl (y, same) ↦ absurd (cc (ap (λ (p : Pdu). is_report p.type) same, report, nr))
      | inr (y, z, more) ↦ absurd (cc (y, plain))
    ]
  ]

  pub given :
      (engine_id : Octets) (ks : Octets × Octets) (id : ℤ) (q : Pending) (h : Heard)
      → (is_authenticated creds.level ≡ true
          → localized_auth_key crypto creds engine_id ≡ done ks.0)
      → is_report q.response.type ≡ false
      → SameRequest (asked_v3 target creds engine_id ks.0 ks.1 id) q
      → Justifies crypto q h
      → IsGivenV3 crypto target creds (to_result q.response) h
  given engine_id ks id q (datagram, from) key nr k (inl (msg, d, r, i, w)) =
      absurd (cc (w.version, k.v3))
  given engine_id ks id q (datagram, from) key nr k (inr (msg, d, i, w)) =
      let (a, b, c) = w.matching nr in
      (
        msg,
        q.response,
        q.priv_key,
        d,
        w.source ∙ k.from,
        a,
        i ∙ sym b,
        subst (λ (x : PrivProtocol). IsOpened crypto msg x q.priv_key q.response) k.priv_protocol
            w.content,
        refl,
        λ auth. (
          engine_id,
          ks.0,
          key auth,
          elim c [
            | inl e ↦ inl (sym k.engine_id ∙ e)
            | inr e ↦
                inr (sym (ap (λ (u : UsmParameters). u.engine_id) w.security) ∙ e ∙ k.engine_id)
          ],
          verified engine_id ks.0 ks.1 datagram from id q msg auth nr k w,
        ),
      )
