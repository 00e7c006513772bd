-- ===== src/Client/Clock/Newer.antt =====
-- What `observeEngineTime` of src/Client.cpp does to the engines' entries.
use snmpio.Common.{
  ℕ, true, some, ◌≡◌, ◌≢◌, ◌⊎◌, inl, inr, refl, sym, ap, ◌∙◌, subst, arith, Bool-cases,
  Option-cases,
}
use snmpio.Common.Int32.{ℤ, pos_part, neg_part, same_int_iff, eq_of_parts, ◌≤ℤ◌}
use snmpio.Common.Map.{Map, same_octets, octets_key}
use snmpio.Value.{Octets}
use snmpio.V3Message.{UsmParameters}
use snmpio.Client.{Impl, EngineState, Endpoint, engine_at}
use snmpio.Client.Clock.{boots_ceiling, observed, observe_engine_time}

-- The second pair of boots and time is the first or comes behind it.
abbrev pub NotOlder : ℤ → ℤ → ℤ → ℤ → Type 0
NotOlder boots time boots' time' = (boots ≤ℤ boots') × (boots ≡ boots' → time ≤ℤ time')

-- An entry is left alone, or takes a pair that is not older, with the clock's reading.
pub record IsAdvanced (now : ℕ) (security : UsmParameters) (e e' : EngineState) : Type 0 where
  pub same_engine : e'.engine_id ≡ e.engine_id
  pub forward : NotOlder e.boots e.time e'.boots e'.time
  pub trusted : e.time_synced ≡ true → e'.time_synced ≡ true
  pub untouched :
      (e' ≡ e)
      ⊎ ((e'.boots ≡ security.boots)
          × (e'.time ≡ security.time)
          × (e'.at ≡ now)
          × (security.boots ≢ boots_ceiling))

pub observed-IsAdvanced :
    (now : ℕ) (security : UsmParameters) (e : EngineState)
    → IsAdvanced now security e (observed now security e)
unfolding observed
observed-IsAdvanced now security e =
    ground (arith, same_int_iff security.boots boots_ceiling, same_int_iff security.boots e.boots)

pub engine_at-parts :
    (from : Endpoint) (s : Impl) (id : Octets) (e : EngineState)
    → engine_at from s ≡ some (id, e)
    → (s.engine_at from ≡ some id) × (s.engines id ≡ some e)
unfolding engine_at
engine_at-parts from s id e h = ground arith

pub engine_at-some :
    (from : Endpoint) (s : Impl) (id : Octets) (e : EngineState)
    → s.engine_at from ≡ some id
    → s.engines id ≡ some e
    → engine_at from s ≡ some (id, e)
unfolding engine_at
engine_at-some from s id e p q = ground arith

unchanged : (now : ℕ) (security : UsmParameters) (e : EngineState) → IsAdvanced now security e e
unchanged now security e = ground arith

-- observeEngineTime takes no engine entry away; each keeps its engineID, its pair of boots and
-- time never goes back, trust in it is never lost, and it stays as it was or holds the pair
-- observed, stamped with the local clock, whose boots are not the ceiling.
pub observe_engine_time-IsAdvanced :
    (now : ℕ) (from : Endpoint) (security : UsmParameters) (s : Impl) (id : Octets)
    (e : EngineState)
    → s.engines id ≡ some e
    → (e' : EngineState) × ((observe_engine_time now from security s).engines id ≡ some e')
      × IsAdvanced now security e e'
unfolding observe_engine_time
observe_engine_time-IsAdvanced now from security s id e h = elim (Option-cases (engine_at from s)) [
  | inl n ↦ rw (n, observe_engine_time) (e, h, unchanged now security e)
  | inr ((i, e0), p) ↦ elim (Bool-cases (same_octets id i)) [
    | inl c ↦
        let q : s.engines i ≡ some e0 = (engine_at-parts from s i e0 p).1 in
        let same : id ≡ i = (octets_key.same_iff id i).0 c in
        let e0-eq : e0 ≡ e = ground (arith, q, h, same) in
        (
          observed now security e0,
          ground (arith, p, c),
          subst (λ x. IsAdvanced now security x (observed now security e0)) e0-eq
              (observed-IsAdvanced now security e0),
        )
    | inr c ↦ (e, ground (arith, p, c), unchanged now security e)
  ]
]

pub observe-index :
    (now : ℕ) (from : Endpoint) (security : UsmParameters) (s : Impl)
    → (observe_engine_time now from security s).engine_at ≡ s.engine_at
unfolding observe_engine_time
observe-index now from security s = elim (Option-cases (engine_at from s)) [
  | inl n ↦ rw (n, observe_engine_time) refl
  | inr (e, p) ↦ rw (p, observe_engine_time) refl
]

-- The engine at an endpoint has a trusted clock, which is not behind this pair.
pub record HasReached (from : Endpoint) (boots time : ℤ) (s : Impl) : Type 0 where
  pub id : Octets
  pub engine : EngineState
  pub known : engine_at from s ≡ some (id, engine)
  pub trusted : engine.time_synced ≡ true
  pub reached : NotOlder boots time engine.boots engine.time

NotOlder-trans : (a b c d e f : ℤ) → NotOlder a b c d → NotOlder c d e f → NotOlder a b e f
NotOlder-trans a b c d e f h k = (
  omega (arith, h.0, k.0),
  λ same.
      let ca : a ≡ c =
        eq_of_parts a c (omega (arith, h.0, k.0, ap pos_part same, ap neg_part same)) in
      omega (arith, h.1 ca, k.1 (sym ca ∙ same)),
)

pub observe_engine_time-HasReached :
    (now : ℕ) (at : Endpoint) (security : UsmParameters) (from : Endpoint) (b t : ℤ) (s : Impl)
    → HasReached from b t s
    → HasReached from b t (observe_engine_time now at security s)
observe_engine_time-HasReached now at security from b t s h =
    let (i, q) = engine_at-parts from s h.id h.engine h.known in
    let (e', q', adv) = observe_engine_time-IsAdvanced now at security s h.id h.engine q in
    record {
      id = h.id;
      engine = e';
      known =
          engine_at-some from (observe_engine_time now at security s) h.id e'
            (ap (λ (m : Map Endpoint Octets). m from) (observe-index now at security s) ∙ i) q';
      trusted = adv.trusted h.trusted;
      reached =
          NotOlder-trans b t h.engine.boots h.engine.time e'.boots e'.time h.reached adv.forward;
    }
