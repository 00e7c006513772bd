-- ===== src/Client/Deliver/Reply.antt =====
-- What `deliverV2c` and `deliverV3` of src/Client.cpp require of a datagram that answers a request.
use snmpio.Common.{
  Bool, true, false, not, ◌&&◌, none, [], ◌==◌, ◌≡◌, ◌⊎◌, inl, inr, refl, ◌∙◌, subst, arith,
  Bool-cases, Option-cases, ==_iff,
}
use snmpio.Common.Int32.{same_int_iff}
use snmpio.Common.Map.{same_octets_iff}
use snmpio.Value.{Octets}
use snmpio.Pdu.{Pdu, V2cMessage}
use snmpio.Usm.{Crypto, PrivProtocol, is_authenticated, is_encrypted}
use snmpio.V3Message.{V3Message, UsmParameters}
use snmpio.V3Message.Decode.{decrypt_scoped_pdu, verify_auth}
use snmpio.Client.{Pending, Endpoint}
use snmpio.Client.Report.{is_report, is_response, reports_not_in_time_windows}
use snmpio.Client.Deliver.{accept_v2c, accept_v3, open_reply, judge, take_reply, is_exempt}

-- What was asked stays as it was.
pub record SameRequest (p p' : Pending) : Type 0 where
  pub from : p'.from ≡ p.from
  pub community : p'.community ≡ p.community
  pub v3 : p'.v3 ≡ p.v3
  pub auth_required : p'.auth_required ≡ p.auth_required
  pub auth_protocol : p'.auth_protocol ≡ p.auth_protocol
  pub priv_protocol : p'.priv_protocol ≡ p.priv_protocol
  pub auth_key : p'.auth_key ≡ p.auth_key
  pub priv_key : p'.priv_key ≡ p.priv_key
  pub engine_id : p'.engine_id ≡ p.engine_id
  pub request_id : p'.request_id ≡ p.request_id
  pub time_sync_phase : p'.time_sync_phase ≡ p.time_sync_phase

-- A request is left unanswered, but perhaps for a reason to give at its deadline.
abbrev pub IsDropped : Pending → Pending → Type 0
IsDropped p p' = p' ≡ record p { drop_reason = p'.drop_reason }

-- The Response of a v2c message that answers the request.
pub record V2cReply (from : Endpoint) (msg : V2cMessage) (p : Pending) : Type 0 where
  pub version : p.v3 ≡ false
  pub source : from ≡ p.from
  pub community : msg.community ≡ p.community
  pub response : p.response ≡ msg.pdu

-- A Report that is neither signed nor encrypted.
abbrev pub IsUnsignedReport : V3Message → Type 0
IsUnsignedReport msg =
    (is_encrypted msg.header.level ≡ false)
    × (is_authenticated msg.header.level ≡ false)
    × (is_report msg.scoped.pdu.type ≡ true)

unsigned_report :
    (msg : V3Message) (p : Pending)
    → (p.auth_required && not (is_exempt msg)) ≡ false
    → (p.auth_required ≡ false) ⊎ IsUnsignedReport msg
unfolding is_exempt
unsigned_report msg p h = ground arith

-- The PDU of a message, which the request's key opens if it is encrypted.
abbrev pub IsOpened : Crypto → V3Message → PrivProtocol → Octets → Pdu → Type 0
IsOpened crypto msg priv priv_key pdu =
    ((is_encrypted msg.header.level ≡ false) × (pdu ≡ msg.scoped.pdu))
    ⊎ ((is_encrypted msg.header.level ≡ true)
        × ((decrypt_scoped_pdu crypto msg priv priv_key).0 ≡ none)
        × (pdu ≡ (decrypt_scoped_pdu crypto msg priv priv_key).1.scoped.pdu))

-- A v3 message that answers the request: from the Target asked, verified unless the request needs no
-- authentication or the message is a Report that no one could sign, and, if it is no Report, the
-- Response to this very request from the Engine addressed.
pub record V3Reply (crypto : Crypto) (from : Endpoint) (datagram : Octets) (msg : V3Message)
    (p : Pending) : Type 0 where
  pub version : p.v3 ≡ true
  pub source : from ≡ p.from
  pub security : p.security ≡ msg.security
  pub content : IsOpened crypto msg p.priv_protocol p.priv_key p.response
  pub verified :
      ((p.reply_authenticated ≡ true)
        × (verify_auth crypto datagram msg p.auth_protocol p.auth_key ≡ none))
      ⊎ ((p.reply_authenticated ≡ false) × ((p.auth_required ≡ false) ⊎ IsUnsignedReport msg))
  pub matching :
      is_report p.response.type ≡ false
      → (is_response p.response.type ≡ true)
        × (p.response.request_id ≡ p.request_id)
        × ((p.engine_id ≡ []) ⊎ (p.security.engine_id ≡ p.engine_id))

pub accept_v2c-SameRequest :
    (from : Endpoint) (msg : V2cMessage) (p : Pending) → SameRequest p (accept_v2c from msg p)
unfolding accept_v2c
accept_v2c-SameRequest from msg p = ground arith

pub accept_v2c-cases :
    (from : Endpoint) (msg : V2cMessage) (p : Pending)
    → (accept_v2c from msg p ≡ p)
      ⊎ (V2cReply from msg (accept_v2c from msg p) × ((accept_v2c from msg p).answered ≡ true))
unfolding accept_v2c
accept_v2c-cases from msg p =
    ground (arith, ==_iff from p.from, same_octets_iff msg.community p.community)

judge-SameRequest :
    (authenticated on_time : Bool) (msg : V3Message) (p : Pending)
    → SameRequest p (judge authenticated on_time msg p)
unfolding judge take_reply
judge-SameRequest authenticated on_time msg p = ground arith

module _ (crypto : Crypto) where
  open_reply-SameRequest :
      (authenticated on_time : Bool) (msg : V3Message) (p : Pending)
      → SameRequest p (open_reply crypto authenticated on_time msg p)
  unfolding open_reply
  open_reply-SameRequest authenticated on_time msg p = ground (
    arith,
    judge-SameRequest authenticated on_time msg p,
    judge-SameRequest authenticated on_time
        (decrypt_scoped_pdu crypto msg p.priv_protocol p.priv_key).1 p,
  )

  pub accept_v3-SameRequest :
      (from : Endpoint) (datagram : Octets) (on_time : Bool) (msg : V3Message) (p : Pending)
      → SameRequest p (accept_v3 crypto from datagram on_time msg p)
  unfolding accept_v3
  accept_v3-SameRequest from datagram on_time msg p =
      ground (
        arith,
        open_reply-SameRequest true on_time msg p,
        open_reply-SameRequest false on_time msg p,
      )

-- A message that is taken, in terms of the open message's checks.
record Taken (authenticated on_time : Bool) (msg : V3Message) (p p' : Pending) : Type 0 where
  security : p'.security ≡ msg.security
  flag : p'.reply_authenticated ≡ authenticated
  answered : p'.answered ≡ true
  matching :
      is_report p'.response.type ≡ false
      → (is_response p'.response.type ≡ true)
        × (p'.response.request_id ≡ p.request_id)
        × ((p.engine_id ≡ []) ⊎ (msg.security.engine_id ≡ p.engine_id))
        × (p.auth_required ≡ true → on_time ≡ true)
  unsigned :
      p.time_sync_phase ≡ true
      → reports_not_in_time_windows p'.response ≡ true
      → authenticated ≡ true

judge-cases :
    (authenticated on_time : Bool) (msg : V3Message) (p : Pending)
    → IsDropped p (judge authenticated on_time msg p)
      ⊎ (Taken authenticated on_time msg p (judge authenticated on_time msg p)
          × ((judge authenticated on_time msg p).response ≡ msg.scoped.pdu))
unfolding judge take_reply
judge-cases authenticated on_time msg p = ground (
  arith,
  same_octets_iff p.engine_id [],
  same_octets_iff msg.security.engine_id p.engine_id,
  same_int_iff msg.scoped.pdu.request_id p.request_id,
)

-- A reply that counts: it is marked as the answer, a request that needs authentication takes none but a
-- Report from outside the Time Window, and time synchronisation no unsigned notInTimeWindows.
pub record IsHeeded (on_time : Bool) (p : Pending) : Type 0 where
  pub answered : p.answered ≡ true
  pub timely : p.auth_required ≡ true → is_report p.response.type ≡ false → on_time ≡ true
  pub signed :
      p.time_sync_phase ≡ true
      → reports_not_in_time_windows p.response ≡ true
      → p.reply_authenticated ≡ true

module _ (crypto : Crypto) where
  decrypt-security :
      (msg : V3Message) (p : Pending)
      → (decrypt_scoped_pdu crypto msg p.priv_protocol p.priv_key).1.security ≡ msg.security
  unfolding decrypt_scoped_pdu
  decrypt-security msg p = ground arith

  retold :
      (authenticated on_time : Bool) (msg opened : V3Message) (p p' : Pending)
      → opened.security ≡ msg.security
      → Taken authenticated on_time opened p p'
      → Taken authenticated on_time msg p p'
  retold authenticated on_time msg opened p p' e t = record {
    security = t.security ∙ e;
    flag = t.flag;
    answered = t.answered;
    matching =
        subst
          (λ (x : UsmParameters).
            is_report p'.response.type ≡ false
            → (is_response p'.response.type ≡ true)
              × (p'.response.request_id ≡ p.request_id)
              × ((p.engine_id ≡ []) ⊎ (x.engine_id ≡ p.engine_id))
              × (p.auth_required ≡ true → on_time ≡ true))
          e t.matching;
    unsigned = t.unsigned;
  }

  open_reply-cases :
      (authenticated on_time : Bool) (msg : V3Message) (p : Pending)
      → IsDropped p (open_reply crypto authenticated on_time msg p)
        ⊎ (Taken authenticated on_time msg p (open_reply crypto authenticated on_time msg p)
            × IsOpened crypto msg p.priv_protocol p.priv_key
                (open_reply crypto authenticated on_time msg p).response)
  unfolding open_reply
  open_reply-cases authenticated on_time msg p = elim (Bool-cases (is_encrypted msg.header.level)) [
    | inr c ↦ elim (judge-cases authenticated on_time msg p) [
      | inl d ↦ rw c (inl d)
      | inr (t, b) ↦ rw c (inr (t, inl (refl, b)))
    ]
    | inl c ↦
        let opened = (decrypt_scoped_pdu crypto msg p.priv_protocol p.priv_key).1 in
        elim (Option-cases (decrypt_scoped_pdu crypto msg p.priv_protocol p.priv_key).0) [
          | inr (e, h) ↦ inl (ground (arith, c, h))
          | inl h ↦
              let same : open_reply crypto authenticated on_time msg p
                  ≡ judge authenticated on_time opened p =
                ground (arith, c, h) in
              rw same (elim (judge-cases authenticated on_time opened p) [
                | inl d ↦ inl d
                | inr (t, b) ↦ inr (
                  retold authenticated on_time msg opened p (judge authenticated on_time opened p)
                      (decrypt-security msg p) t,
                  inr (c, h, b),
                )
              ])
        ]
  ]

  -- `verified` is what the checks in front of `openReply` established.
  conclude :
      (from : Endpoint) (datagram : Octets) (authenticated on_time : Bool) (msg : V3Message)
      (p q : Pending)
      → p.v3 ≡ true
      → from ≡ p.from
      → ((authenticated ≡ true)
          × (verify_auth crypto datagram msg p.auth_protocol p.auth_key ≡ none))
        ⊎ ((authenticated ≡ false) × ((p.auth_required ≡ false) ⊎ IsUnsignedReport msg))
      → SameRequest p q
      → IsDropped p q
        ⊎ (Taken authenticated on_time msg p q
            × IsOpened crypto msg p.priv_protocol p.priv_key q.response)
      → IsDropped p q ⊎ (V3Reply crypto from datagram msg q × IsHeeded on_time q)
  conclude from datagram authenticated on_time msg p q v f w k (inl d) = inl d
  conclude from datagram authenticated on_time msg p q v f w k (inr (t, b)) = inr (ground arith)

  -- A v3 message does one of two things to the request with its msgID. It leaves it as it was, but
  -- perhaps for a reason to give at the deadline; or it answers it, and then it came from the
  -- Target asked; the answer is the PDU of the message, opened with the request's privacy key if
  -- it is encrypted; verifyAuth accepted it under the request's key, or the request needs no
  -- authentication, or it is an unsigned, unencrypted Report; if it is no Report, it is a Response
  -- with the request's number from the Engine addressed, if one was, and it is timely if
  -- authentication is needed; and if it answers time synchronisation with notInTimeWindows, it was
  -- verified.
  pub accept_v3-cases :
      (from : Endpoint) (datagram : Octets) (on_time : Bool) (msg : V3Message) (p : Pending)
      → IsDropped p (accept_v3 crypto from datagram on_time msg p)
        ⊎ (V3Reply crypto from datagram msg (accept_v3 crypto from datagram on_time msg p)
            × IsHeeded on_time (accept_v3 crypto from datagram on_time msg p))
  unfolding accept_v3
  accept_v3-cases from datagram on_time msg p = elim (Bool-cases p.v3) [
    | inr c ↦ inl (ground (arith, c))
    | inl c ↦ elim (Bool-cases (from == p.from)) [
      | inr d ↦ inl (ground (arith, c, d))
      | inl d ↦ elim (Bool-cases (p.auth_required && not (is_exempt msg))) [
        | inr e ↦
            let same : accept_v3 crypto from datagram on_time msg p
                ≡ open_reply crypto false on_time msg p =
              ground (arith, c, d, e) in
            rw same (
              conclude from datagram false on_time msg p (open_reply crypto false on_time msg p) c
                ((==_iff from p.from).0 d) (inr (refl, unsigned_report msg p e))
                (open_reply-SameRequest crypto false on_time msg p)
                (open_reply-cases false on_time msg p))
        | inl e ↦ elim (Option-cases (verify_auth crypto datagram msg p.auth_protocol p.auth_key)) [
          | inr (x, g) ↦ inl (ground (arith, c, d, e, g))
          | inl g ↦
              let same : accept_v3 crypto from datagram on_time msg p
                  ≡ open_reply crypto true on_time msg p =
                ground (arith, c, d, e, g) in
              rw same (
                conclude from datagram true on_time msg p (open_reply crypto true on_time msg p) c
                  ((==_iff from p.from).0 d) (inl (refl, g))
                  (open_reply-SameRequest crypto true on_time msg p)
                  (open_reply-cases true on_time msg p))
        ]
      ]
    ]
  ]
