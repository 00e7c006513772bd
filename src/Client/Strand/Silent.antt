-- ===== src/Client/Strand/Silent.antt =====
-- Work on the clocks of the engines in src/Client.cpp leaves the client's requests and keys sound.
use snmpio.Common.{ℕ, Bool, List, ◌≡◌, sym, ap, ◌∙◌, arith}
use snmpio.Common.Map.{Map}
use snmpio.Value.{Octets}
use snmpio.Usm.{Crypto}
use snmpio.V3Message.{UsmParameters}
use snmpio.Client.{Impl, Pending, CacheKey, Endpoint}
use snmpio.Client.Clock.{handle_report, observe_engine_time, resynchronise}
use snmpio.Client.Deliver.Receive.{Heard, IsSound}
use snmpio.Client.Strand.Sound.{same-AreOfLibrary, quiet-IsSound}

-- Work that leaves the table, the requests and the cache of keys alone.
abbrev pub IsSilent : Impl → Impl → Type 0
IsSilent s s' =
    (s'.pending ≡ s.pending)
    × (s'.requests ≡ s.requests)
    × (s'.next_ref ≡ s.next_ref)
    × (s'.keys ≡ s.keys)
    × (s'.discoveries ≡ s.discoveries)

pub observe_engine_time-IsSilent :
    (now : ℕ) (at : Endpoint) (security : UsmParameters) (s : Impl)
    → IsSilent s (observe_engine_time now at security s)
unfolding observe_engine_time
observe_engine_time-IsSilent now at security s = ground arith

pub handle_report-IsSilent :
    (now : ℕ) (at : Endpoint) (p : Pending) (may_retry : Bool) (s : Impl)
    → IsSilent s (handle_report now at p may_retry s).0
unfolding handle_report resynchronise
handle_report-IsSilent now at p may_retry s =
    ground (arith, observe_engine_time-IsSilent now at p.security s)

module _ (crypto : Crypto) where
  pub silent-IsSound :
      (heard : List Heard) (s s' : Impl)
      → IsSilent s s'
      → IsSound crypto heard s
      → IsSound crypto heard s'
  silent-IsSound heard s s' (a, b, c, d, f) w =
      quiet-IsSound crypto heard s s' (a, b, c)
        (λ (g, o). (
          λ k key e. g k key (sym (ap (λ (m : Map CacheKey Octets). m k) d) ∙ e),
          same-AreOfLibrary crypto s s' f o,
        ))
        w
