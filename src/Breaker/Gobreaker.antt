-- ===== src/Breaker/Gobreaker.antt =====
-- The library github.com/sony/gobreaker/v2, as the program relies on it. `Execute` runs a request
-- if the breaker admits it and reports to the breaker whether it succeeded; `admit` and `report`
-- are those two points. The time that passes is part of the breaker's state.
use production_ready_url_sho.Common.{ℕ, suc, String, Bool, Option}
use production_ready_url_sho.Failure.{GoError, Result, err, error_of}

pub record Counts : Type 0 where
  pub requests : ℕ
  pub total_successes : ℕ
  pub total_failures : ℕ
  pub consecutive_successes : ℕ
  pub consecutive_failures : ℕ

abbrev pub no_counts : Counts
no_counts = record {
  requests = 0;
  total_successes = 0;
  total_failures = 0;
  consecutive_successes = 0;
  consecutive_failures = 0;
}

-- What the library documents of its counters.
abbrev pub on_request : Counts → Counts
on_request c = record c { requests = suc c.requests }

abbrev pub on_success : Counts → Counts
on_success c = record c {
  total_successes = suc c.total_successes;
  consecutive_successes = suc c.consecutive_successes;
  consecutive_failures = 0;
}

abbrev pub on_failure : Counts → Counts
on_failure c = record c {
  total_failures = suc c.total_failures;
  consecutive_failures = suc c.consecutive_failures;
  consecutive_successes = 0;
}

pub data State : Type 0 where
  closed half_open opened : State

pub record Settings : Type 0 where
  pub name : String
  pub max_requests : ℕ
  pub interval : ℕ
  pub timeout : ℕ
  pub ready_to_trip : Counts → Bool
  pub is_successful : Option GoError → Bool

pub data Admission : Type 0 where
  admitted : Admission
  rejected : GoError → Admission

-- `C` is the type of `CircuitBreaker` values.
pub record Gobreaker (C : Type 0) : Type 0 where
  pub new_circuit_breaker : Settings → C
  pub settings : C → Settings
  pub state : C → State × C
  pub admit : C → Admission × C
  pub report : Bool → C → C

-- `Execute(req)`, the request acting on a state `S`
unfoldable pub run_admitted :
    {C S A : Type 0}
    → Gobreaker C
    → Settings
    → Admission × C
    → (S → Result A × S)
    → S
    → Result A × C × S
run_admitted g cfg (rejected e, c) req s = (err e, c, s)
run_admitted g cfg (admitted, c) req s =
    let (r, s') = req s in (r, g.report (cfg.is_successful (error_of r)) c, s')

unfoldable pub execute :
    {C S A : Type 0} → Gobreaker C → (S → Result A × S) → C → S → Result A × C × S
unfolding run_admitted
execute g req c s = run_admitted g (g.settings c) (g.admit c) req s
