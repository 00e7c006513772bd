-- ===== src/Client/Deliver/Receive.antt =====
-- The receive loop of src/Client.cpp keeps the table of outstanding requests sound: an answer always
-- comes from a datagram that was entitled to give it.
use snmpio.Common.{
  ℕ, ◌≤◌, Bool, true, none, some, List, ◌∷◌, ◌==◌, ◌≡◌, ◌≢◌, ◌⊎◌, inl, inr, refl, sym, ◌∙◌, subst,
  arith, Bool-cases, Option-cases, ==_iff, All, Any, Any-map,
}
use snmpio.Common.Int32.{ℤ}
use snmpio.Common.Bytes.{IsByte}
use snmpio.Common.Map.{update, number_key}
use snmpio.Value.{Octets}
use snmpio.Pdu.{V2cMessage, decode_v2c_message}
use snmpio.Usm.{Crypto}
use snmpio.V3Message.{V3Message}
use snmpio.V3Message.Decode.{decode_v3_message}
use snmpio.Client.{Impl, Pending, Discovery, Endpoint, agent, modify}
use snmpio.Client.Keys.Derived.{AreDerived}
use snmpio.Client.Report.{is_response}
use snmpio.Client.Clock.{timely}
use snmpio.Client.Deliver.{accept_v2c, accept_v3, at_pending, deliver_v2c, deliver_v3, receive}
use snmpio.Client.Deliver.Reply.{
  SameRequest, IsDropped, V2cReply, V3Reply, accept_v2c-SameRequest, accept_v2c-cases,
  accept_v3-SameRequest, accept_v3-cases,
}

-- A datagram that arrived, and where from.
abbrev pub Heard : Type 0
Heard = Octets × Endpoint

-- No discovery ended with an Agent's error-status.
abbrev pub AreOfLibrary : Impl → Type 0
AreOfLibrary s =
    (ref : ℕ) (d : Discovery) → s.discoveries ref ≡ some d → (n : ℤ) → d.ec ≢ some (agent n)

module _ (crypto : Crypto) where
  -- The datagram decodes to a Response or a message with the request's number that answers it.
  abbrev pub Justifies : Pending → Heard → Type 0
  Justifies p (datagram, from) =
      ((msg : V2cMessage) × ((decode_v2c_message datagram).1 ≡ some msg)
        × (is_response msg.pdu.type ≡ true)
        × (msg.pdu.request_id ≡ p.request_id)
        × V2cReply from msg p)
      ⊎ ((msg : V3Message) × ((decode_v3_message datagram).1 ≡ some msg)
          × (msg.header.msg_id ≡ p.request_id)
          × V3Reply crypto from datagram msg p)

  pub record IsSound (heard : List Heard) (s : Impl) : Type 0 where
    pub table :
        (id : ℤ) (ref : ℕ)
        → s.pending id ≡ some ref
        → (p : Pending) × (s.requests ref ≡ some p) × (p.request_id ≡ id)
    pub fresh : (ref : ℕ) → s.next_ref ≤ ref → s.requests ref ≡ none
    pub justified :
        (ref : ℕ) (p : Pending)
        → s.requests ref ≡ some p
        → p.answered ≡ true
        → Any (Justifies p) heard
    pub derived : AreDerived crypto s
    pub discovered : AreOfLibrary s
    pub octets : All (λ h. All IsByte h.0) heard

  dropped-Justifies : (p q : Pending) (h : Heard) → IsDropped p q → Justifies p h → Justifies q h
  dropped-Justifies p q (datagram, from) d (inl (msg, e, r, i, v)) =
      inl (msg, e, r, ground arith, ground arith)
  dropped-Justifies p q (datagram, from) d (inr (msg, e, i, v)) =
      inr (msg, e, ground arith, ground arith)

  more_heard :
      (h : Heard) (heard : List Heard) (s : Impl)
      → All IsByte h.0
      → IsSound heard s
      → IsSound (h ∷ heard) s
  more_heard h heard s hb w = record {
    octets = (hb, w.octets);
    table = w.table;
    fresh = w.fresh;
    justified = λ ref p l a. inr (w.justified ref p l a);
    derived = w.derived;
    discovered = w.discovered;
  }

  -- Work on one request that leaves what was asked, and answers only with cause.
  module _ (h : Heard) (id : ℤ) (f : Pending → Pending) (same : (p : Pending) → SameRequest p (f p))
      (cause : (p : Pending) → p.request_id ≡ id → IsDropped p (f p) ⊎ Justifies (f p) h) where
    justified_after :
        (heard : List Heard) (p : Pending)
        → p.request_id ≡ id
        → (p.answered ≡ true → Any (Justifies p) heard)
        → (f p).answered ≡ true
        → Any (Justifies (f p)) (h ∷ heard)
    justified_after heard p e old a = elim (cause p e) [
      | inr j ↦ inl j
      | inl d ↦ inr (
          Any-map (Justifies p) (Justifies (f p)) heard (λ x. dropped-Justifies p (f p) x d)
            (old (ground arith)))
    ]

    -- The entries of the table of requests behind the write.
    module _ (s : Impl) (ref : ℕ) (p : Pending) (here : s.requests ref ≡ some p)
        (e : p.request_id ≡ id) where
      abbrev written : Impl
      written = record s { requests = update ref (some (f p)) s.requests }

      written-table :
          (i : ℤ) (ref2 : ℕ)
          → ((q : Pending) × (s.requests ref2 ≡ some q) × (q.request_id ≡ i))
          → (q : Pending) × (written.requests ref2 ≡ some q) × (q.request_id ≡ i)
      written-table i ref2 (q, l, k) = elim (Bool-cases (ref2 == ref)) [
        | inl c ↦
            let eq : ref2 ≡ ref = (==_iff ref2 ref).0 c in
            let pq : q ≡ p = ground (arith, l, here, eq) in
            (f p, rw c refl, (same p).request_id ∙ ground (arith, pq, k))
        | inr c ↦ (q, rw c l, k)
      ]

      written-justified :
          (heard : List Heard) (ref2 : ℕ) (q : Pending)
          → IsSound heard s
          → written.requests ref2 ≡ some q
          → q.answered ≡ true
          → Any (Justifies q) (h ∷ heard)
      written-justified heard ref2 q w l a = elim (Bool-cases (ref2 == ref)) [
        | inl c ↦
            let eq : f p ≡ q = ground (arith, l, c) in
            subst (λ (x : Pending). Any (Justifies x) (h ∷ heard)) eq
              (justified_after heard p e (w.justified ref p here) (ground (arith, eq, a)))
        | inr c ↦ inr (w.justified ref2 q (ground (arith, l, c)) a)
      ]

      written-IsSound :
          (heard : List Heard) → All IsByte h.0 → IsSound heard s → IsSound (h ∷ heard) written
      written-IsSound heard hb w = record {
        octets = (hb, w.octets);
        table = λ i ref2 q. written-table i ref2 (w.table i ref2 q);
        fresh = λ ref2 l. ground (arith, here, w.fresh ref2 l, ==_iff ref2 ref);
        justified = λ ref2 q l a. written-justified heard ref2 q w l a;
        derived = w.derived;
        discovered = w.discovered;
      }

    at_pending-IsSound :
        (heard : List Heard) (s : Impl)
        → All IsByte h.0
        → IsSound heard s
        → IsSound (h ∷ heard) (at_pending id f s)
    unfolding at_pending modify
    at_pending-IsSound heard s hb w = elim (Option-cases (s.pending id)) [
      | inl n ↦ subst (IsSound (h ∷ heard)) (ground (arith, n)) (more_heard h heard s hb w)
      | inr (ref, t) ↦
          let (p, here, e) = w.table id ref t in
          subst (IsSound (h ∷ heard)) (ground (arith, t, here))
            (written-IsSound s ref p here e heard hb w)
    ]

  deliver_v2c-IsSound :
      (datagram : Octets) (from : Endpoint) (heard : List Heard) (s : Impl)
      → All IsByte datagram
      → IsSound heard s
      → IsSound ((datagram, from) ∷ heard) (deliver_v2c datagram from s)
  unfolding deliver_v2c
  deliver_v2c-IsSound datagram from heard s hb w =
      elim (Option-cases (decode_v2c_message datagram).1) [
        | inl n ↦
            subst (IsSound ((datagram, from) ∷ heard)) (ground (arith, n))
              (more_heard (datagram, from) heard s hb w)
        | inr (msg, d) ↦ elim (Bool-cases (is_response msg.pdu.type)) [
          | inr c ↦
              subst (IsSound ((datagram, from) ∷ heard)) (ground (arith, d, c))
                (more_heard (datagram, from) heard s hb w)
          | inl c ↦ subst (IsSound ((datagram, from) ∷ heard)) (ground (arith, d, c)) (
              at_pending-IsSound (datagram, from) msg.pdu.request_id (accept_v2c from msg)
                (accept_v2c-SameRequest from msg) (cause msg d c) heard s hb w)
        ]
      ]
    where
      cause :
          (msg : V2cMessage)
          → (decode_v2c_message datagram).1 ≡ some msg
          → is_response msg.pdu.type ≡ true
          → (p : Pending) → p.request_id ≡ msg.pdu.request_id
          → IsDropped p (accept_v2c from msg p) ⊎ Justifies (accept_v2c from msg p) (datagram, from)
      cause msg d c p e = elim (accept_v2c-cases from msg p) [
        | inl k ↦ inl (ground (arith, k))
        | inr (r, a) ↦
            inr (inl (msg, d, c, sym e ∙ sym (accept_v2c-SameRequest from msg p).request_id, r))
      ]

  deliver_v3-IsSound :
      (now : ℕ) (datagram : Octets) (from : Endpoint) (heard : List Heard) (s : Impl)
      → All IsByte datagram
      → IsSound heard s
      → IsSound ((datagram, from) ∷ heard) (deliver_v3 crypto now datagram from s)
  unfolding deliver_v3
  deliver_v3-IsSound now datagram from heard s hb w =
      elim (Option-cases (decode_v3_message datagram).1) [
        | inl n ↦
            subst (IsSound ((datagram, from) ∷ heard)) (ground (arith, n))
              (more_heard (datagram, from) heard s hb w)
        | inr (msg, d) ↦
            let on_time = timely now from msg.security s in
            subst (IsSound ((datagram, from) ∷ heard)) (ground (arith, d)) (
              at_pending-IsSound (datagram, from) msg.header.msg_id
                (accept_v3 crypto from datagram on_time msg)
                (accept_v3-SameRequest crypto from datagram on_time msg) (cause on_time msg d) heard
                s hb w)
      ]
    where
      cause :
          (on_time : Bool) (msg : V3Message)
          → (decode_v3_message datagram).1 ≡ some msg
          → (p : Pending) → p.request_id ≡ msg.header.msg_id
          → IsDropped p (accept_v3 crypto from datagram on_time msg p)
            ⊎ Justifies (accept_v3 crypto from datagram on_time msg p) (datagram, from)
      cause on_time msg d p e = elim (accept_v3-cases crypto from datagram on_time msg p) [
        | inl k ↦ inl k
        | inr (r, a) ↦ inr (
            inr (
              msg,
              d,
              sym e ∙ sym (accept_v3-SameRequest crypto from datagram on_time msg p).request_id,
              r,
            ))
      ]

  pub receive-cases :
      (now : ℕ) (datagram : Octets) (from : Endpoint) (s : Impl)
      → (receive crypto now datagram from s ≡ s)
        ⊎ ((receive crypto now datagram from s ≡ deliver_v2c datagram from s)
            ⊎ (receive crypto now datagram from s ≡ deliver_v3 crypto now datagram from s))
  unfolding receive
  receive-cases now datagram from s = ground arith

  -- Whatever datagram arrives, the receive loop keeps the state sound: an id leads to a request
  -- with that number, references that were not given out yet are unused, and each request that is
  -- answered has its answer from a datagram that came in from the Target asked, under its number,
  -- and that is a v2c Response with its Community, or a v3 message that verifyAuth accepted under
  -- the request's key, unless the request needs no authentication or the message is an unsigned,
  -- unencrypted Report; every key in the cache is what its row derives, and no discovery ended
  -- with an error-status of an Agent.
  pub receive-IsSound :
      (now : ℕ) (datagram : Octets) (from : Endpoint) (heard : List Heard) (s : Impl)
      → All IsByte datagram
      → IsSound heard s
      → IsSound ((datagram, from) ∷ heard) (receive crypto now datagram from s)
  receive-IsSound now datagram from heard s hb w = elim (receive-cases now datagram from s) [
    | inl e ↦
        subst (IsSound ((datagram, from) ∷ heard)) (sym e)
          (more_heard (datagram, from) heard s hb w)
    | inr (inl e) ↦
        subst (IsSound ((datagram, from) ∷ heard)) (sym e)
          (deliver_v2c-IsSound datagram from heard s hb w)
    | inr (inr e) ↦
        subst (IsSound ((datagram, from) ∷ heard)) (sym e)
          (deliver_v3-IsSound now datagram from heard s hb w)
  ]
