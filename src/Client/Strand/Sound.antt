-- ===== src/Client/Strand/Sound.antt =====
-- Whatever the strand of src/Client.cpp does while an operation waits, the client's state stays sound.
use snmpio.Common.{
  if◌then◌else◌, ℕ, ◌≤◌, false, none, some, List, [], ◌∷◌, ◌==◌, ◌≡◌, ◌≢◌, inl, inr, refl, sym, ap,
  ◌∙◌, subst, arith, Bool-cases, Option-cases, ==_iff, Bool, true, Option,
}
use snmpio.Common.Int32.{ℤ, same_int, same_int_iff}
use snmpio.Common.Map.{Map, number_key}
use snmpio.Usm.{Crypto, Credentials, Result, done}
use snmpio.Value.{Octets}
use snmpio.Client.{Impl, Pending, Discovery, CacheKey, Endpoint, Failure, agent, int_key}
use snmpio.Client.Ids.{next_id}
use snmpio.Client.Keys.{cached, localized_key, localized_privacy_key}
use snmpio.Client.Keys.Derived.{
  derive, AreDerived, localized_key-localized_auth_key, localized_privacy_key-AreDerived,
}
use snmpio.Client.Deliver.Receive.{Heard, AreOfLibrary, IsSound, receive-IsSound}
use snmpio.Client.Strand.{
  Run, Event, received, passed, stopped, signalled, started, ended, numbered, engine_written,
  endpoint_written, derived, discovered, finish_discovery, Await, make_shared, emplace_pending,
  erase_pending, start, step, steps, wait_for, wait,
}

module _ (crypto : Crypto) where
  -- Work that leaves the table and the requests alone.
  pub elsewhere-IsSound :
      (heard : List Heard) (s s' : Impl)
      → s'.pending ≡ s.pending
      → s'.requests ≡ s.requests
      → s'.next_ref ≡ s.next_ref
      → (AreDerived crypto s × AreOfLibrary s → AreDerived crypto s' × AreOfLibrary s')
      → IsSound crypto heard s
      → IsSound crypto heard s'
  elsewhere-IsSound heard s s' ep er en ed w = record {
    octets = w.octets;
    derived = (ed (w.derived, w.discovered)).0;
    discovered = (ed (w.derived, w.discovered)).1;
    table = λ id ref t.
        subst (λ (m : Map ℕ Pending). (p : Pending) × (m ref ≡ some p) × (p.request_id ≡ id))
          (sym er) (w.table id ref (sym (ap (λ (m : Map ℤ ℕ). m id) ep) ∙ t));
    fresh = λ ref l.
        ap (λ (m : Map ℕ Pending). m ref) er ∙ w.fresh ref (subst (λ (n : ℕ). n ≤ ref) en l);
    justified = λ ref p l a. w.justified ref p (sym (ap (λ (m : Map ℕ Pending). m ref) er) ∙ l) a;
  }

  pub erase_pending-IsSound :
      (heard : List Heard) (s : Impl) (id : ℤ)
      → IsSound crypto heard s
      → IsSound crypto heard (erase_pending id s)
  unfolding erase_pending
  erase_pending-IsSound heard s id w = record {
    table = λ i ref t. elim (Bool-cases (same_int i id)) [
      | inl c ↦ absurd (cc (rw c at t))
      | inr c ↦ w.table i ref (rw c at t)
    ];
    fresh = w.fresh;
    derived = w.derived;
    octets = w.octets;
    discovered = w.discovered;
    justified = w.justified;
  }

  -- A new request, which has no answer, behind a new reference.
  pub make_shared-IsSound :
      (heard : List Heard) (s : Impl) (p : Pending)
      → p.answered ≡ false
      → IsSound crypto heard s
      → IsSound crypto heard (make_shared p s).0
        × ((make_shared p s).0.requests (make_shared p s).1 ≡ some p)
  unfolding make_shared
  make_shared-IsSound heard s p a w =
      let unused : s.requests s.next_ref ≡ none = w.fresh s.next_ref (omega arith) in
      (
        record {
          table = λ id ref t.
              let (q, l, k) = w.table id ref t in
              (q, ground (arith, l, unused, ==_iff ref s.next_ref), k);
          derived = w.derived;
          octets = w.octets;
          discovered = w.discovered;
          fresh = λ ref l. ground (arith, w.fresh ref, ==_iff ref s.next_ref);
          justified = λ ref q l b. elim (Bool-cases (ref == s.next_ref)) [
            | inl c ↦ absurd (ground (arith, l, c, b))
            | inr c ↦ w.justified ref q (rw c at l) b
          ];
        },
        ground (arith, ==_iff s.next_ref s.next_ref),
      )

  pub emplace_pending-IsSound :
      (heard : List Heard) (s : Impl) (id : ℤ) (ref : ℕ) (p : Pending)
      → s.requests ref ≡ some p
      → p.request_id ≡ id
      → IsSound crypto heard s
      → IsSound crypto heard (emplace_pending id ref s)
  unfolding emplace_pending
  emplace_pending-IsSound heard s id ref p here e w = record {
    table = λ i ref2 t. elim (Option-cases (s.pending id)) [
      | inr (x, q) ↦ w.table i ref2 (ground (arith, t, q))
      | inl q ↦ elim (Bool-cases (same_int i id)) [
        | inr c ↦ w.table i ref2 (ground (arith, t, q, c))
        | inl c ↦
            let eq : ref ≡ ref2 = ground (arith, t, q, c) in
            (p, ground (arith, here, eq), e ∙ sym ((same_int_iff i id).0 c))
      ]
    ];
    fresh = w.fresh;
    derived = w.derived;
    octets = w.octets;
    discovered = w.discovered;
    justified = w.justified;
  }

  pub start-IsSound :
      (heard : List Heard) (s : Impl) (p : Pending)
      → IsSound crypto heard s
      → IsSound crypto heard (start p s)
  unfolding start
  start-IsSound heard s p w =
      let fresh_one : Pending = record p { answered = false } in
      let (w1, here) = make_shared-IsSound heard s fresh_one refl w in
      emplace_pending-IsSound heard (make_shared fresh_one s).0 p.request_id
        (make_shared fresh_one s).1 fresh_one here refl w1

  -- Work that leaves the table and the requests alone.
  abbrev pub IsQuiet : Impl → Impl → Type 0
  IsQuiet s s' = (s'.pending ≡ s.pending) × (s'.requests ≡ s.requests) × (s'.next_ref ≡ s.next_ref)

  pub cached-IsQuiet :
      (k : CacheKey) (made : Result Octets) (s : Impl) → IsQuiet s (cached k made s).0
  unfolding cached
  cached-IsQuiet k made s = ground arith

  pub finish_discovery-keys :
      (at : Endpoint) (ec : Option Failure) (s : Impl) → (finish_discovery at ec s).keys ≡ s.keys
  unfolding finish_discovery
  finish_discovery-keys at ec s = ground arith

  pub derived-IsQuiet :
      (creds : Credentials) (id : Octets) (private : Bool) (s : Impl)
      → IsQuiet s (
          if private
          then (localized_privacy_key crypto creds id s).0
          else (localized_key crypto creds id s).0)
  unfolding localized_key localized_privacy_key
  derived-IsQuiet creds id true s = cached-IsQuiet _ _ s
  derived-IsQuiet creds id false s = cached-IsQuiet _ _ s

  pub cached-discoveries :
      (k : CacheKey) (made : Result Octets) (s : Impl)
      → (cached k made s).0.discoveries ≡ s.discoveries
  unfolding cached
  cached-discoveries k made s = ground arith

  pub same-AreOfLibrary :
      (s s' : Impl) → s'.discoveries ≡ s.discoveries → AreOfLibrary s → AreOfLibrary s'
  same-AreOfLibrary s s' e o ref d f n = o ref d (sym (ap (λ (m : Map ℕ Discovery). m ref) e) ∙ f) n

  pub derived-AreDerived :
      (creds : Credentials) (id : Octets) (private : Bool) (s : Impl)
      → AreDerived crypto s × AreOfLibrary s
      → AreDerived crypto (
          if private
          then (localized_privacy_key crypto creds id s).0
          else (localized_key crypto creds id s).0)
        × AreOfLibrary (
            if private
            then (localized_privacy_key crypto creds id s).0
            else (localized_key crypto creds id s).0)
  unfolding localized_key localized_privacy_key
  derived-AreDerived creds id true s (d, o) = (
    localized_privacy_key-AreDerived crypto creds id s d,
    same-AreOfLibrary s (localized_privacy_key crypto creds id s).0 (cached-discoveries _ _ s) o,
  )
  derived-AreDerived creds id false s (d, o) = (
    (localized_key-localized_auth_key crypto creds id s d).0,
    same-AreOfLibrary s (localized_key crypto creds id s).0 (cached-discoveries _ _ s) o,
  )

  pub finish_discovery-AreDerived :
      (at : Endpoint) (ec : Option Failure) (s : Impl)
      → AreDerived crypto s
      → AreDerived crypto (finish_discovery at ec s)
  finish_discovery-AreDerived at ec s d =
      subst
        (λ (m : Map CacheKey Octets).
          (k : CacheKey) (key : Octets) → m k ≡ some key → derive crypto k ≡ done key)
        (sym (finish_discovery-keys at ec s)) d

  pub finish_discovery-AreOfLibrary :
      (at : Endpoint) (ec : Option Failure) (s : Impl)
      → ((n : ℤ) → ec ≢ some (agent n))
      → AreOfLibrary s
      → AreOfLibrary (finish_discovery at ec s)
  unfolding finish_discovery
  finish_discovery-AreOfLibrary at ec s own o ref d e n = elim (Option-cases (s.discovering at)) [
    | inl f ↦ o ref d (ground (arith, e, f)) n
    | inr (r, f) ↦ elim (Bool-cases (ref == r)) [
      | inr c ↦ o ref d (ground (arith, e, f, c)) n
      | inl c ↦
          let same : record { ec = ec; finished = true } ≡ d = ground (arith, e, f, c) in
          subst (λ (x : Discovery). x.ec ≢ some (agent n)) same (own n)
    ]
  ]

  pub finish_discovery-IsQuiet :
      (at : Endpoint) (ec : Option Failure) (s : Impl) → IsQuiet s (finish_discovery at ec s)
  unfolding finish_discovery
  finish_discovery-IsQuiet at ec s = ground arith

  pub quiet-IsSound :
      (heard : List Heard) (s s' : Impl)
      → IsQuiet s s'
      → (AreDerived crypto s × AreOfLibrary s → AreDerived crypto s' × AreOfLibrary s')
      → IsSound crypto heard s
      → IsSound crypto heard s'
  quiet-IsSound heard s s' (a, b, c) d w = elsewhere-IsSound heard s s' a b c d w

  pub step-IsSound :
      (e : Event) (r : Run)
      → IsSound crypto r.heard r.impl
      → IsSound crypto (step crypto e r).heard (step crypto e r).impl
  unfolding step
  step-IsSound (received datagram octets from) r w =
      receive-IsSound crypto r.now datagram from r.heard r.impl octets w
  step-IsSound (passed n) r w = w
  step-IsSound stopped r w = quiet-IsSound r.heard r.impl _ (refl, refl, refl) (λ d. d) w
  step-IsSound (signalled c) r w = w
  step-IsSound (started q) r w = start-IsSound r.heard r.impl q w
  step-IsSound (ended id) r w = erase_pending-IsSound r.heard r.impl id w
  step-IsSound numbered r w =
      unfold next_id in
      quiet-IsSound r.heard r.impl (next_id r.impl).0 (refl, refl, refl) (λ d. d) w
  step-IsSound (engine_written id e) r w =
      quiet-IsSound r.heard r.impl _ (refl, refl, refl) (λ d. d) w
  step-IsSound (endpoint_written at id) r w =
      quiet-IsSound r.heard r.impl _ (refl, refl, refl) (λ d. d) w
  step-IsSound (derived creds id private) r w =
      quiet-IsSound r.heard r.impl _ (derived-IsQuiet creds id private r.impl)
        (derived-AreDerived creds id private r.impl) w
  step-IsSound (discovered at ec own) r w =
      quiet-IsSound r.heard r.impl _ (finish_discovery-IsQuiet at ec r.impl)
        (λ (d, o). (
          finish_discovery-AreDerived at ec r.impl d,
          finish_discovery-AreOfLibrary at ec r.impl own o,
        ))
        w

  steps-IsSound :
      (es : List Event) (r : Run)
      → IsSound crypto r.heard r.impl
      → IsSound crypto (steps crypto es r).heard (steps crypto es r).impl
  unfolding steps
  steps-IsSound [] r w = w
  steps-IsSound (e ∷ es) r w = steps-IsSound es (step crypto e r) (step-IsSound e r w)

  wait_for-IsSound :
      (l : List Await) (r : Run)
      → IsSound crypto r.heard r.impl
      → IsSound crypto (wait_for crypto l r).0.heard (wait_for crypto l r).0.impl
  unfolding wait_for
  wait_for-IsSound [] r w = w
  wait_for-IsSound (a ∷ more) r w = steps-IsSound a.events (record r { awaits = more }) w

  pub wait-IsSound :
      (r : Run)
      → IsSound crypto r.heard r.impl
      → IsSound crypto (wait crypto r).0.heard (wait crypto r).0.impl
  unfolding wait
  wait-IsSound r w = wait_for-IsSound r.awaits r w
