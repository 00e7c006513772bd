-- ===== src/Client/Clock/Reports.antt =====
-- `handleReport` of src/Client.cpp: what a Report can do to the client.
use snmpio.Common.{
  ℕ, Bool, true, false, not, ◌&&◌, ◌||◌, Option, none, some, ◌≡◌, ◌≢◌, ◌⊎◌, inl, inr, refl, ap,
  arith, Bool-cases, Option-cases,
}
use snmpio.Common.Int32.{less_int}
use snmpio.Common.Map.{Map, same_octets, same_octets_iff, octets_key, number_key, same-false}
use snmpio.Error.{Errc}
use snmpio.Value.{Octets}
use snmpio.V3Message.{UsmParameters}
use snmpio.Client.{Impl, Pending, EngineState, Endpoint, engine_at}
use snmpio.Client.Report.{
  usm_stats_counter, not_in_time_windows, unknown_engine_ids, is_counter, report_error,
}
use snmpio.Client.Clock.{handle_report, resynchronise, forget_endpoint, observe_engine_time}
use snmpio.Client.Clock.Newer.{
  IsAdvanced, engine_at-parts, observe_engine_time-IsAdvanced, observe-index,
}

-- An engine's entry takes the pair of a signed Report, if that is not older, or is no longer trusted.
abbrev pub IsResynchronised : ℕ → UsmParameters → EngineState → EngineState → Type 0
IsResynchronised now security e e' =
    IsAdvanced now security e e' ⊎ (e' ≡ record e { time_synced = false })

-- What a Report does to a client.
pub record IsReported (now : ℕ) (from : Endpoint) (p : Pending) (may_retry : Bool) (s s' : Impl)
    (failure : Option Errc) : Type 0 where
  -- A failure is the Report's own, and changes nothing.
  pub failed :
      (e : Errc) → failure ≡ some e → (s' ≡ s) × (e ≡ report_error (usm_stats_counter p.response))
  -- Another attempt follows only where one is left and the Report names one of two counters.
  pub retried :
      failure ≡ none
      → (may_retry ≡ true)
        × ((usm_stats_counter p.response ≡ some not_in_time_windows)
            ⊎ (usm_stats_counter p.response ≡ some unknown_engine_ids))
  -- An unsigned Report writes no entry.
  pub unsigned : p.reply_authenticated ≡ false → s'.engines ≡ s.engines
  pub elsewhere : (at : Endpoint) → at ≢ from → s'.engine_at at ≡ s.engine_at at
  pub entries :
      (id : Octets) (e : EngineState)
      → s.engines id ≡ some e
      → (e' : EngineState) × (s'.engines id ≡ some e') × IsResynchronised now p.security e e'

IsAdvanced-refl :
    (now : ℕ) (security : UsmParameters) (e : EngineState) → IsAdvanced now security e e
IsAdvanced-refl now security e = ground arith

resynchronise-entries :
    (now : ℕ) (from : Endpoint) (security : UsmParameters) (s : Impl) (id : Octets)
    (e : EngineState)
    → s.engines id ≡ some e
    → (e' : EngineState) × ((resynchronise now from security (engine_at from s) s).engines id
        ≡ some e')
      × IsResynchronised now security e e'
unfolding resynchronise
resynchronise-entries now from security s id e h = elim (Option-cases (engine_at from s)) [
  | inl n ↦ rw (n, resynchronise) (observed_entry)
  | inr ((i, e0), k) ↦ elim (Bool-cases (e0.time_synced && less_int security.boots e0.boots)) [
    | inr c ↦ rw (k, resynchronise, c) observed_entry
    | inl c ↦ elim (Bool-cases (same_octets id i)) [
      | inr d ↦ (e, ground (arith, k, c, d, h), inl (IsAdvanced-refl now security e))
      | inl d ↦
          let q : s.engines i ≡ some e0 = (engine_at-parts from s i e0 k).1 in
          let eq : e0 ≡ e = ground (arith, q, h, same_octets_iff id i, d) in
          (
            record e0 { time_synced = false },
            ground (arith, k, c, d),
            inr (ap (λ (x : EngineState). record x { time_synced = false }) eq),
          )
    ]
  ]
]
  where
    observed_entry :
        (e' : EngineState) × ((observe_engine_time now from security s).engines id ≡ some e')
        × IsResynchronised now security e e'
    observed_entry =
        let (e', l, adv) = observe_engine_time-IsAdvanced now from security s id e h in
        (e', l, inl adv)

resynchronise-index :
    (now : ℕ) (from : Endpoint) (security : UsmParameters) (s : Impl)
    → (resynchronise now from security (engine_at from s) s).engine_at ≡ s.engine_at
unfolding resynchronise
resynchronise-index now from security s = elim (Option-cases (engine_at from s)) [
  | inl n ↦ rw (n, resynchronise) (observe-index now from security s)
  | inr ((i, e0), k) ↦ elim (Bool-cases (e0.time_synced && less_int security.boots e0.boots)) [
    | inr c ↦ rw (k, resynchronise, c) (observe-index now from security s)
    | inl c ↦ rw (k, resynchronise, c) refl
  ]
]

module _ (now : ℕ) (from : Endpoint) (p : Pending) (s : Impl) where
  abbrev counter : Option ℕ
  counter = usm_stats_counter p.response

  refused : (may_retry : Bool) → IsReported now from p may_retry s s (some (report_error counter))
  refused may_retry = record {
    failed = λ e k. (refl, ground arith);
    retried = λ k. absurd (cc);
    unsigned = λ u. refl;
    elsewhere = λ at k. refl;
    entries = λ id e h. (e, h, inl (IsAdvanced-refl now p.security e));
  }

  counters :
      (is_counter not_in_time_windows counter || is_counter unknown_engine_ids counter) ≡ true
      → (counter ≡ some not_in_time_windows) ⊎ (counter ≡ some unknown_engine_ids)
  counters h = ground arith

  forgotten :
      (is_counter not_in_time_windows counter || is_counter unknown_engine_ids counter) ≡ true
      → IsReported now from p true s (forget_endpoint from s) none
  forgotten h = record {
    failed = λ e k. absurd (cc);
    retried = λ k. (refl, counters h);
    unsigned = λ u. refl;
    elsewhere = λ at k. rw (same-false at from k) refl;
    entries = λ id e l. (e, l, inl (IsAdvanced-refl now p.security e));
  }

  synchronised :
      (is_counter not_in_time_windows counter || is_counter unknown_engine_ids counter) ≡ true
      → p.reply_authenticated ≡ true
      → IsReported now from p true s (resynchronise now from p.security (engine_at from s) s) none
  synchronised h a = record {
    failed = λ e k. absurd (cc);
    retried = λ k. (refl, counters h);
    unsigned = λ u. absurd (cc (a, u));
    elsewhere =
        λ at k. ap (λ (m : Map Endpoint Octets). m at) (resynchronise-index now from p.security s);
    entries = λ id e l. resynchronise-entries now from p.security s id e l;
  }

  -- What handleReport does with any Report: a failure is the one that the Report names and changes
  -- nothing; another attempt follows only if one is left and the Report names notInTimeWindows or
  -- unknownEngineIDs; an unsigned Report writes no engine entry; no other endpoint is forgotten;
  -- and each engine entry stays, takes the pair of the Report if that is not older, or is no
  -- longer trusted.
  pub handle_report-IsReported :
      (may_retry : Bool)
      → IsReported now from p may_retry s
          (handle_report now from p may_retry s).0
          (handle_report now from p may_retry s).1
  unfolding handle_report
  handle_report-IsReported false = refused false
  handle_report-IsReported true =
      elim (Bool-cases
        (is_counter not_in_time_windows counter || is_counter unknown_engine_ids counter)) [
          | inr c ↦ rw c (refused true)
          | inl c ↦
              elim (Bool-cases
                (not p.reply_authenticated || is_counter unknown_engine_ids counter)) [
                  | inl d ↦ rw (c, d) (forgotten c)
                  | inr d ↦ rw (c, d) (synchronised c (ground (arith, d)))
                ]
        ]
