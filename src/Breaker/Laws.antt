-- ===== src/Breaker/Laws.antt =====
-- What gobreaker documents of its states and counters, as laws of the interface.
use production_ready_url_sho.Common.{suc, ◌≤◌, ◌<◌, ◌≡◌, ◌⊎◌, Bool, true, false}
use production_ready_url_sho.Failure.{GoError, sentinel, open_state, too_many_requests}
use production_ready_url_sho.Breaker.Gobreaker.{
  Gobreaker, Counts, Settings, State, closed, half_open, opened, admitted, rejected, no_counts,
  on_request, on_success, on_failure,
}

-- `IsSteady c` says that neither the interval nor the timeout of `c` runs out during the calls
-- that are looked at.
pub record GobreakerLaws {C : Type 0} (g : Gobreaker C) : Type 1 where
  pub mode : C → State
  pub counts : C → Counts
  pub IsSteady : C → Type 0
  pub settings_new : (s : Settings) → g.settings (g.new_circuit_breaker s) ≡ s
  pub mode_new : (s : Settings) → mode (g.new_circuit_breaker s) ≡ closed
  pub counts_new : (s : Settings) → counts (g.new_circuit_breaker s) ≡ no_counts
  pub settings_admit : (c : C) → g.settings (g.admit c).1 ≡ g.settings c
  pub settings_report : (b : Bool) (c : C) → g.settings (g.report b c) ≡ g.settings c
  pub steady_admit : (c : C) → IsSteady c → IsSteady (g.admit c).1
  pub steady_report : (b : Bool) (c : C) → IsSteady c → IsSteady (g.report b c)
  pub state_mode : (c : C) → IsSteady c → g.state c ≡ (mode c, c)
  -- A breaker that rejects a request does so with one of two errors.
  pub rejection :
      (c : C) (e : GoError)
      → (g.admit c).0 ≡ rejected e
      → (e ≡ sentinel open_state) ⊎ (e ≡ sentinel too_many_requests)
  pub closed_admits : (c : C) → mode c ≡ closed → (g.admit c).0 ≡ admitted
  pub closed_stays : (c : C) → IsSteady c → mode c ≡ closed → mode (g.admit c).1 ≡ closed
  pub request_counted :
      (c : C) → IsSteady c → mode c ≡ closed → counts (g.admit c).1 ≡ on_request (counts c)
  pub opened_rejects :
      (c : C) → IsSteady c → mode c ≡ opened → (g.admit c).0 ≡ rejected (sentinel open_state)
  pub opened_stays : (c : C) → IsSteady c → mode c ≡ opened → mode (g.admit c).1 ≡ opened
  -- `ReadyToTrip` is called with the counters whenever a request fails in the closed state.
  pub failure_trips :
      (c : C)
      → IsSteady c
      → mode c ≡ closed
      → (g.settings c).ready_to_trip (on_failure (counts c)) ≡ true
      → mode (g.report false c) ≡ opened
  pub failure_counted :
      (c : C)
      → IsSteady c
      → mode c ≡ closed
      → (g.settings c).ready_to_trip (on_failure (counts c)) ≡ false
      → (mode (g.report false c) ≡ closed) × (counts (g.report false c) ≡ on_failure (counts c))
  pub success_counted :
      (c : C)
      → IsSteady c
      → mode c ≡ closed
      → (mode (g.report true c) ≡ closed) × (counts (g.report true c) ≡ on_success (counts c))

-- The half-open state, in which `MaxRequests` requests are let through.
pub record ProbeLaws {C : Type 0} (g : Gobreaker C) (laws : GobreakerLaws g) : Type 0 where
  pub probe_admitted :
      (c : C)
      → laws.IsSteady c
      → laws.mode c ≡ half_open
      → (laws.counts c).requests < (g.settings c).max_requests
      → ((g.admit c).0 ≡ admitted)
        × (laws.mode (g.admit c).1 ≡ half_open)
        × (laws.counts (g.admit c).1 ≡ on_request (laws.counts c))
  pub probe_limited :
      (c : C)
      → laws.IsSteady c
      → laws.mode c ≡ half_open
      → (g.settings c).max_requests ≤ (laws.counts c).requests
      → (g.admit c).0 ≡ rejected (sentinel too_many_requests)
  -- As many successes in a row as requests are let through close the breaker, with new counters.
  pub probe_succeeded :
      (c : C)
      → laws.IsSteady c
      → laws.mode c ≡ half_open
      → (g.settings c).max_requests ≤ suc (laws.counts c).consecutive_successes
      → (laws.mode (g.report true c) ≡ closed) × (laws.counts (g.report true c) ≡ no_counts)
  pub probe_failed :
      (c : C) → laws.IsSteady c → laws.mode c ≡ half_open → laws.mode (g.report false c) ≡ opened
