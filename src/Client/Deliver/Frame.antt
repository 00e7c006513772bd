-- ===== src/Client/Deliver/Frame.antt =====
-- What a datagram leaves alone in the client of src/Client.cpp.
use snmpio.Common.{
  ℕ, some, ◌==◌, ◌≡◌, ◌⊎◌, inl, inr, refl, sym, subst, arith, Bool-cases, Option-cases, ==_iff,
}
use snmpio.Common.Int32.{ℤ}
use snmpio.Common.Map.{update, number_key}
use snmpio.Value.{Octets}
use snmpio.Pdu.{decode_v2c_message}
use snmpio.Usm.{Crypto}
use snmpio.V3Message.Decode.{decode_v3_message}
use snmpio.Client.{Impl, Pending, Endpoint, modify}
use snmpio.Client.Report.{is_response}
use snmpio.Client.Clock.{timely}
use snmpio.Client.Deliver.{accept_v2c, accept_v3, at_pending, deliver_v2c, deliver_v3, receive}
use snmpio.Client.Deliver.Receive.{receive-cases}
use snmpio.Client.Deliver.Reply.{SameRequest, accept_v2c-SameRequest, accept_v3-SameRequest}

-- Nothing but the outstanding requests changes, and what each of them asked stays.
pub record IsFramed (s s' : Impl) : Type 0 where
  pub rest : s' ≡ record s { requests = s'.requests }
  pub asked :
      (ref : ℕ)
      → (s'.requests ref ≡ s.requests ref)
        ⊎ ((p : Pending) × (p' : Pending) × (s.requests ref ≡ some p)
            × (s'.requests ref ≡ some p')
            × SameRequest p p')

same_state : (s : Impl) → IsFramed s s
same_state s = record { rest = refl; asked = λ ref. inl refl }

written-IsFramed :
    (s : Impl) (ref : ℕ) (p p' : Pending)
    → s.requests ref ≡ some p
    → SameRequest p p'
    → IsFramed s (record s { requests = update ref (some p') s.requests })
written-IsFramed s ref p p' here same = record {
  rest = refl;
  asked = λ ref2. elim (Bool-cases (ref2 == ref)) [
    | inl c ↦ inr (p, p', ground (arith, here, ==_iff ref2 ref, c), rw c refl, same)
    | inr c ↦ inl (rw c refl)
  ];
}

at_pending-IsFramed :
    (id : ℤ) (f : Pending → Pending) (s : Impl)
    → ((p : Pending) → SameRequest p (f p))
    → IsFramed s (at_pending id f s)
unfolding at_pending modify
at_pending-IsFramed id f s same = elim (Option-cases (s.pending id)) [
  | inl n ↦ subst (IsFramed s) (ground (arith, n)) (same_state s)
  | inr (ref, t) ↦ elim (Option-cases (s.requests ref)) [
    | inl n ↦ subst (IsFramed s) (ground (arith, t, n)) (same_state s)
    | inr (p, here) ↦
        subst (IsFramed s) (ground (arith, t, here)) (written-IsFramed s ref p (f p) here (same p))
  ]
]

deliver_v2c-IsFramed :
    (datagram : Octets) (from : Endpoint) (s : Impl) → IsFramed s (deliver_v2c datagram from s)
unfolding deliver_v2c
deliver_v2c-IsFramed datagram from s = elim (Option-cases (decode_v2c_message datagram).1) [
  | inl n ↦ subst (IsFramed s) (ground (arith, n)) (same_state s)
  | inr (msg, d) ↦ elim (Bool-cases (is_response msg.pdu.type)) [
    | inr c ↦ subst (IsFramed s) (ground (arith, d, c)) (same_state s)
    | inl c ↦ subst (IsFramed s) (ground (arith, d, c)) (
        at_pending-IsFramed msg.pdu.request_id (accept_v2c from msg) s
          (accept_v2c-SameRequest from msg))
  ]
]

module _ (crypto : Crypto) where
  deliver_v3-IsFramed :
      (now : ℕ) (datagram : Octets) (from : Endpoint) (s : Impl)
      → IsFramed s (deliver_v3 crypto now datagram from s)
  unfolding deliver_v3
  deliver_v3-IsFramed now datagram from s = elim (Option-cases (decode_v3_message datagram).1) [
    | inl n ↦ subst (IsFramed s) (ground (arith, n)) (same_state s)
    | inr (msg, d) ↦
        let on_time = timely now from msg.security s in
        subst (IsFramed s) (ground (arith, d)) (
          at_pending-IsFramed msg.header.msg_id (accept_v3 crypto from datagram on_time msg) s
            (accept_v3-SameRequest crypto from datagram on_time msg))
  ]

  -- Whatever datagram arrives, the receive loop changes nothing but the outstanding requests, and
  -- of each of them only the answer, not what was asked: no datagram touches the engines, the
  -- caches, the numbering or the table itself.
  pub receive-IsFramed :
      (now : ℕ) (datagram : Octets) (from : Endpoint) (s : Impl)
      → IsFramed s (receive crypto now datagram from s)
  receive-IsFramed now datagram from s = elim (receive-cases crypto now datagram from s) [
    | inl e ↦ subst (IsFramed s) (sym e) (same_state s)
    | inr (inl e) ↦ subst (IsFramed s) (sym e) (deliver_v2c-IsFramed datagram from s)
    | inr (inr e) ↦ subst (IsFramed s) (sym e) (deliver_v3-IsFramed now datagram from s)
  ]
