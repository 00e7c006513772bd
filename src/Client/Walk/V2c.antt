-- ===== src/Client/Walk/V2c.antt =====
-- `doWalk` over `doRequest` in src/Client.cpp: a Walk of an SNMPv2c Agent ends.
use snmpio.Common.{
  ℕ, ◌≤◌, Bool, Option, none, some, List, [], ◌∷◌, All, Any, length, ◌≡◌, ◌⊎◌, inl, inr, refl, sym,
  ap, ◌∙◌, subst, arith, true, Bool-cases,
}
use snmpio.Common.Int32.{ℤ, pos, same_int}
use snmpio.Common.Bytes.{IsByte}
use snmpio.Error.{Errc}
use snmpio.Oid.{Oid, max_subids, is_encodable}
use snmpio.Value.{Octets, Varbind}
use snmpio.Value.Representable.{IsRepresentableVarbind}
use snmpio.Pdu.{Pdu, V2cMessage, decode_v2c_message}
use snmpio.Pdu.Representable.{IsRepresentablePdu}
use snmpio.Pdu.Verdict.{IsV2cVerdict, decode_v2c_message-IsV2cVerdict}
use snmpio.Usm.{Crypto}
use snmpio.Client.{Impl, Endpoint, Failure, Target, Response, to_result}
use snmpio.Client.Deliver.Receive.{Heard, IsSound}
use snmpio.Client.Strand.{Run}
use snmpio.Client.Exchange.{completed, do_request_v2c, request_v2c}
use snmpio.Client.Exchange.Justified.{
  IsReply, IsGiven, do_request_v2c-HasAnswer, do_request_v2c-cases,
}
use snmpio.Client.RequestV3.{Auth, community, do_request}
use snmpio.Client.Walk.{Requester, BatchHandler, do_walk}
use snmpio.Client.Walk.Ends.{IsName, do_walk-some}

encodable-few : (o : Oid) → is_encodable o ≡ true → length o ≤ max_subids
unfolding is_encodable
encodable-few o h = ground (arith, h)

AreRepresentable-AreNames :
    (vbs : List Varbind) → All IsRepresentableVarbind vbs → All (λ vb. IsName vb.name) vbs
AreRepresentable-AreNames [] a = tt
AreRepresentable-AreNames (vb ∷ vbs) ((e, s, v), t) =
    ((encodable-few vb.name e, s), AreRepresentable-AreNames vbs t)

decoded-IsRepresentablePdu :
    (datagram : Octets) (msg : V2cMessage)
    → All IsByte datagram
    → (decode_v2c_message datagram).1 ≡ some msg
    → IsRepresentablePdu msg.pdu
decoded-IsRepresentablePdu datagram msg hb e =
    of_verdict (decode_v2c_message datagram) (decode_v2c_message-IsV2cVerdict datagram hb) e
  where
    of_verdict :
        (x : Option Errc × Option V2cMessage)
        → IsV2cVerdict x
        → x.1 ≡ some msg
        → IsRepresentablePdu msg.pdu
    of_verdict (c, none) v f = absurd (cc (f))
    of_verdict (some c, some m) v f = absurd v
    of_verdict (none, some m) v f =
        let same : m ≡ msg = ground (arith, f) in
        subst (λ (x : V2cMessage). IsRepresentablePdu x.pdu) same v

Any-All :
    {A : Type 0} {P Q : A → Type 0} {R : Type 0} (l : List A)
    → ((x : A) → P x → Q x → R)
    → Any P l
    → All Q l
    → R
Any-All [] f a b = absurd a
Any-All (x ∷ l) f (inl p) (q, qs) = f x p q
Any-All (x ∷ l) f (inr a) (q, qs) = Any-All l f a qs

to_result-varbinds : (p : Pdu) → (to_result p).1.varbinds ≡ p.varbinds
unfolding to_result
to_result-varbinds p = ground arith

to_result-IsReply : (p : Pdu) → IsReply (to_result p).0
unfolding to_result
to_result-IsReply p = elim (Bool-cases (same_int p.error_status (pos 0))) [
  | inl c ↦ rw c tt
  | inr c ↦ rw c tt
]

completed-IsReply :
    (ref : ℕ) (out : Run × Option Failure)
    → IsReply (completed ref out).1.0 ⊎ ((completed ref out).1.1.varbinds ≡ [])
unfolding completed
completed-IsReply ref (r, none) = inl (to_result-IsReply _)
completed-IsReply ref (r, some e) = inr refl

module _ (crypto : Crypto) (is_v6 : Endpoint → Bool) (open_socket : Bool → ℕ → Option ℕ)
    (salt : Run → ℕ) (target : Target) where
  -- What a Walk uses of the client.
  unfoldable pub over_requests : Auth → Requester Run
  over_requests auth = record {
    do_request = λ pdu r. do_request crypto is_v6 open_socket salt target auth pdu r;
    cancelled = λ r. r.cancelled;
    stopping = λ r. r.impl.stopping;
  }

  module _ (name : Octets) where
    answered_names :
        (id : ℤ) (outcome : Option Failure × Response) (h : Heard)
        → IsGiven name target.endpoint id outcome h
        → All IsByte h.0
        → All (λ vb. IsName vb.name) outcome.1.varbinds
    answered_names id outcome (datagram, from) (msg, d, f, t, c, i, e) hb =
        let pdu = decoded-IsRepresentablePdu datagram msg hb d in
        subst (λ (vbs : List Varbind). All (λ vb. IsName vb.name) vbs)
          (sym
            (ap (λ (x : Option Failure × Response). x.1.varbinds) e ∙ to_result-varbinds msg.pdu))
          (AreRepresentable-AreNames msg.pdu.varbinds pdu.varbinds)

    request_v2c-IsReply :
        (datagram : Octets) (id : ℤ) (s : Impl) (r : Run)
        → let out = request_v2c crypto is_v6 open_socket target name datagram id s r in
          IsReply out.1.0 ⊎ (out.1.1.varbinds ≡ [])
    unfolding request_v2c
    request_v2c-IsReply datagram id s r = completed-IsReply _ _

    do_request_v2c-IsReply :
        (pdu : Pdu) (r : Run)
        → let out = do_request_v2c crypto is_v6 open_socket target name pdu r in
          IsReply out.1.0 ⊎ (out.1.1.varbinds ≡ [])
    do_request_v2c-IsReply pdu r =
        elim (do_request_v2c-cases crypto is_v6 open_socket target name pdu r) [
          | inl e ↦ inr (ap (λ (x : Run × (Option Failure × Response)). x.1.1.varbinds) e)
          | inr (inl (c, e)) ↦
              inr (ap (λ (x : Run × (Option Failure × Response)). x.1.1.varbinds) e)
          | inr (inr e) ↦
              subst
                (λ (x : Run × (Option Failure × Response)). IsReply x.1.0 ⊎ (x.1.1.varbinds ≡ []))
                (sym e) (request_v2c-IsReply _ _ _ _)
        ]

    asks :
        (pdu : Pdu) (r : Run)
        → IsSound crypto r.heard r.impl
        → let out = do_request_v2c crypto is_v6 open_socket target name pdu r in
          IsSound crypto out.0.heard out.0.impl × All (λ vb. IsName vb.name) out.1.1.varbinds
    asks pdu r w =
        let out = do_request_v2c crypto is_v6 open_socket target name pdu r in
        let (w1, given) = do_request_v2c-HasAnswer crypto is_v6 open_socket target name pdu r w in
        elim (do_request_v2c-IsReply pdu r) [
          | inl a ↦
              (w1, Any-All out.0.heard (answered_names r.impl.next_id out.1) (given a) w1.octets)
          | inr e ↦ (w1, subst (λ (vbs : List Varbind). All (λ vb. IsName vb.name) vbs) (sym e) tt)
        ]

    -- A Walk over SNMPv2c ends, whatever datagrams arrive, whatever the signals and the rest of the
    -- strand do and whatever its caller makes of the batches: from a sound state, with a base of at
    -- most 128 sub-identifiers of 32 bits and a handler that keeps the state sound, doWalk over
    -- doRequest reaches a completion.
    pub do_walk_v2c-some :
        (on_batch : BatchHandler Run) (base : Oid) (max : ℤ) (r : Run)
        → ((batch : List Varbind) (r1 : Run)
            → IsSound crypto r1.heard r1.impl
            → IsSound crypto (on_batch batch r1).0.heard (on_batch batch r1).0.impl)
        → IsName base
        → IsSound crypto r.heard r.impl
        → (r' : Run) × (failure : Option Failure) × (do_walk
              (over_requests (community name))
              on_batch
              base
              max
              r
            ≡ some (r', failure))
    unfolding over_requests do_request
    do_walk_v2c-some on_batch base max r hands n w =
        do_walk-some (over_requests (community name)) on_batch
          (λ r1. IsSound crypto r1.heard r1.impl) base max r asks hands n w
