-- ===== src/Client/Strand/Holds.antt =====
-- Whatever the strand of src/Client.cpp does while an operation waits, the requests stay sound, and the
-- operation's own request stays what it was.
use snmpio.Common.{ℕ, ◌<◌, some, List, [], ◌∷◌, ◌≡◌, inl, inr, ap, ◌∙◌, subst, arith, ==_iff}
use snmpio.Common.Map.{Map, number_key}
use native.Mathlib.Decide.{dec_lt}
use snmpio.Usm.{Crypto}
use snmpio.Client.{Impl, Pending, int_key}
use snmpio.Client.Ids.{next_id}
use snmpio.Client.Deliver.{receive}
use snmpio.Client.Deliver.Reply.{SameRequest}
use snmpio.Client.Deliver.Receive.{Heard, IsSound}
use snmpio.Client.Deliver.Frame.{IsFramed, receive-IsFramed}
use snmpio.Client.Strand.{
  Run, Event, received, passed, stopped, signalled, started, ended, numbered, engine_written,
  endpoint_written, derived, discovered, Await, make_shared, emplace_pending, erase_pending, start,
  step, steps, wait_for, wait,
}
use snmpio.Client.Strand.Sound.{IsQuiet, derived-IsQuiet, finish_discovery-IsQuiet, step-IsSound}

pub SameRequest-refl : (p : Pending) → SameRequest p p
SameRequest-refl p = ground arith

SameRequest-trans : (p q r : Pending) → SameRequest p q → SameRequest q r → SameRequest p r
SameRequest-trans p q r h k = ground arith

module _ (crypto : Crypto) where
  -- The request behind a reference is still the one that was asked.
  abbrev pub IsKept : ℕ → Pending → Impl → Type 0
  IsKept ref p s = (q : Pending) × (s.requests ref ≡ some q) × SameRequest p q

  start-requests :
      (s : Impl) (p : Pending) (ref : ℕ)
      → ref < s.next_ref
      → (start p s).requests ref ≡ s.requests ref
  unfolding start make_shared emplace_pending
  start-requests s p ref l = ground (arith, ==_iff ref s.next_ref)

  -- What an operation relies on across its waits.
  pub record Holds (ref : ℕ) (p : Pending) (r : Run) : Type 0 where
    pub sound : IsSound crypto r.heard r.impl
    pub kept : IsKept ref p r.impl

  IsKept-lt :
      (heard : List Heard) (ref : ℕ) (p : Pending) (s : Impl)
      → IsSound crypto heard s
      → IsKept ref p s
      → ref < s.next_ref
  IsKept-lt heard ref p s w (q, l, k) = elim (dec_lt ref s.next_ref) [
    | yes h ↦ h
    | no h ↦ absurd (cc (w.fresh ref (omega arith), l))
  ]

  receive-IsKept :
      (ref : ℕ) (p : Pending) (s s' : Impl) → IsFramed s s' → IsKept ref p s → IsKept ref p s'
  receive-IsKept ref p s s' f (q, l, k) = elim (f.asked ref) [
    | inl e ↦ (q, e ∙ l, k)
    | inr (q1, q2, l1, l2, same) ↦
        let eq : q ≡ q1 = ground (arith, l, l1) in
        (q2, l2, SameRequest-trans p q1 q2 (subst (λ (x : Pending). SameRequest p x) eq k) same)
  ]

  quiet-IsKept :
      (ref : ℕ) (p : Pending) (s s' : Impl) → IsQuiet crypto s s' → IsKept ref p s → IsKept ref p s'
  quiet-IsKept ref p s s' (a, b, c) (q, l, k) = (q, ap (λ (m : Map ℕ Pending). m ref) b ∙ l, k)

  step-IsKept :
      (e : Event) (ref : ℕ) (p : Pending) (r : Run)
      → IsSound crypto r.heard r.impl
      → IsKept ref p r.impl
      → IsKept ref p (step crypto e r).impl
  unfolding step
  step-IsKept (received datagram octets from) ref p r w k =
      receive-IsKept ref p r.impl (receive crypto r.now datagram from r.impl)
        (receive-IsFramed crypto r.now datagram from r.impl) k
  step-IsKept (passed n) ref p r w k = k
  step-IsKept stopped ref p r w k = k
  step-IsKept (signalled c) ref p r w k = k
  step-IsKept (started q) ref p r w k =
      let (x, l, same) = k in
      (x, start-requests r.impl q ref (IsKept-lt r.heard ref p r.impl w k) ∙ l, same)
  step-IsKept (ended id) ref p r w k = unfold erase_pending in k
  step-IsKept numbered ref p r w k = unfold next_id in k
  step-IsKept (engine_written id e) ref p r w k = k
  step-IsKept (endpoint_written at id) ref p r w k = k
  step-IsKept (derived creds id private) ref p r w k =
      quiet-IsKept ref p r.impl (step crypto (derived creds id private) r).impl
        (derived-IsQuiet crypto creds id private r.impl) k
  step-IsKept (discovered at ec own) ref p r w k =
      quiet-IsKept ref p r.impl (step crypto (discovered at ec own) r).impl
        (finish_discovery-IsQuiet crypto at ec r.impl) k

  step-Holds :
      (e : Event) (ref : ℕ) (p : Pending) (r : Run) → Holds ref p r → Holds ref p (step crypto e r)
  step-Holds e ref p r h = record {
    sound = step-IsSound crypto e r h.sound;
    kept = step-IsKept e ref p r h.sound h.kept;
  }

  steps-Holds :
      (es : List Event) (ref : ℕ) (p : Pending) (r : Run)
      → Holds ref p r
      → Holds ref p (steps crypto es r)
  unfolding steps
  steps-Holds [] ref p r h = h
  steps-Holds (e ∷ es) ref p r h = steps-Holds es ref p (step crypto e r) (step-Holds e ref p r h)

  wait_for-Holds :
      (l : List Await) (ref : ℕ) (p : Pending) (r : Run)
      → Holds ref p r
      → Holds ref p (wait_for crypto l r).0
  unfolding wait_for
  wait_for-Holds [] ref p r h = h
  wait_for-Holds (a ∷ more) ref p r h =
      steps-Holds a.events ref p (record r { awaits = more })
        (record { sound = h.sound; kept = h.kept })

  pub wait-Holds : (ref : ℕ) (p : Pending) (r : Run) → Holds ref p r → Holds ref p (wait crypto r).0
  unfolding wait
  wait-Holds ref p r h = wait_for-Holds r.awaits ref p r h
