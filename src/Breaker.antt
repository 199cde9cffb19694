-- ===== src/Breaker.antt =====
-- internal/platform/databse/breaker.go: when a breaker trips and which errors it counts.
-- The breaker itself is the library gobreaker, a parameter (`Breaker.Gobreaker`).
-- `ErrorRateThreshold` is a fraction, and the float division is exact arithmetic: for two counters
-- below 2 ^ 32 the rounded quotient is above 0.5 exactly if the quotient is.
pub mod Gobreaker
pub mod Policy
pub mod Laws
use production_ready_url_sho.Common.{
  ℕ, ◌*◌, String, Bool, true, false, ◌&&◌, ◌||◌, not, Option, none, some, ltb, leb, ◌==◌,
  if◌then◌else◌,
}
use production_ready_url_sho.Failure.{
  SqlState, GoError, not_found, no_rows, canceled, deadline_exceeded, is, as_pg,
}
use production_ready_url_sho.Context.{second}
use Gobreaker.{Counts, Settings}

pub record Fraction : Type 0 where
  pub numerator : ℕ
  pub denominator : ℕ

pub record BreakerSettings : Type 0 where
  pub name : String
  pub max_requests : ℕ
  pub interval : ℕ
  pub timeout : ℕ
  pub consecutive_failures : ℕ
  pub error_rate_threshold : Fraction
  pub min_requests_for_rate : ℕ

abbrev pub default_breaker_settings : String → BreakerSettings
default_breaker_settings name = record {
  name = name;
  max_requests = 1;
  interval = 60 * second;
  timeout = 30 * second;
  consecutive_failures = 5;
  error_rate_threshold = record { numerator = 1; denominator = 2 };
  min_requests_for_rate = 20;
}

-- `float64(failures) / float64(requests) > threshold`, for `requests > 0`
abbrev pub rate_above : ℕ → ℕ → Fraction → Bool
rate_above failures requests t = ltb (t.numerator * requests) (failures * t.denominator)

unfoldable pub ready_to_trip : BreakerSettings → Counts → Bool
ready_to_trip s c =
    if leb s.consecutive_failures c.consecutive_failures
    then true
    else if ltb 0 s.min_requests_for_rate && leb s.min_requests_for_rate c.requests
    then (if rate_above c.total_failures c.requests s.error_rate_threshold then true else false)
    else false

-- The switch on `pgErr.Code[:2]`.
unfoldable pub class_counts : String → Bool
class_counts class =
    if class == "23" || class == "42"
    then false
    else if class == "53" || (class == "57" || (class == "58" || (class == "08" || class == "XX")))
    then true
    else false

abbrev pub pg_counts : Option SqlState → Bool
pg_counts none = true
pg_counts (some s) = class_counts s.class

error_counts : GoError → Bool
unfolding class_counts
error_counts e =
    if is e not_found
    then false
    else if is e no_rows
    then false
    else if is e canceled
    then false
    else if is e deadline_exceeded
    then true
    else pg_counts (as_pg e)

-- `none` is `nil`.
unfoldable pub should_count : Option GoError → Bool
unfolding error_counts
should_count none = false
should_count (some e) = error_counts e

unfoldable pub new_breaker : BreakerSettings → Settings
unfolding should_count ready_to_trip
new_breaker s = record {
  name = s.name;
  max_requests = s.max_requests;
  interval = s.interval;
  timeout = s.timeout;
  ready_to_trip = ready_to_trip s;
  is_successful = λ e. not (should_count e);
}
