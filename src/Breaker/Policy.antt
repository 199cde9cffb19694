-- ===== src/Breaker/Policy.antt =====
-- When `ReadyToTrip` and `shouldCount` say yes.
use production_ready_url_sho.Common.{
  sym, inl, inr, eq_iff, ◌*◌, ◌≤◌, ◌<◌, String, true, ◌≡◌, ◌↔◌, ◌⊎◌, some, arith, ◌∙◌, refl,
}
use production_ready_url_sho.Failure.{
  GoError, sentinel, pg_error, other, wrapped, is, as_pg, circuit_open, not_found, conflict,
  no_rows, canceled, deadline_exceeded, open_state, too_many_requests,
}
use production_ready_url_sho.Failure.Wrapping.{root, is-root, as_pg-root}
use production_ready_url_sho.Breaker.{
  BreakerSettings, ready_to_trip, class_counts, error_counts, should_count,
}
use production_ready_url_sho.Breaker.Gobreaker.{Counts}

-- A breaker is ready to trip exactly if there were as many consecutive failures as its settings
-- say, or if there were enough requests for a rate and the share of failures, counted over all of
-- them, is strictly above the threshold.
pub ready_to_trip_iff :
    (s : BreakerSettings) (c : Counts)
    → (ready_to_trip s c ≡ true) ↔ (
        (s.consecutive_failures ≤ c.consecutive_failures)
        ⊎ ((0 < s.min_requests_for_rate)
            × (s.min_requests_for_rate ≤ c.requests)
            × (s.error_rate_threshold.numerator * c.requests
                < c.total_failures * s.error_rate_threshold.denominator)))
unfolding ready_to_trip
ready_to_trip_iff s c = ground arith

-- The classes of SQLSTATE that are the server's fault.
abbrev pub IsServerClass : String → Type 0
IsServerClass class =
    (class ≡ "53") ⊎ ((class ≡ "57") ⊎ ((class ≡ "58") ⊎ ((class ≡ "08") ⊎ (class ≡ "XX"))))

-- An innermost error that is an infrastructure failure.
abbrev pub IsInfrastructure : GoError → Type 0
IsInfrastructure (sentinel not_found) = ⊥
IsInfrastructure (sentinel no_rows) = ⊥
IsInfrastructure (sentinel canceled) = ⊥
IsInfrastructure (sentinel _) = Unit
IsInfrastructure (pg_error s) = IsServerClass s.class
IsInfrastructure (other m) = Unit
IsInfrastructure (wrapped m e) = Unit

error_counts-root : (e : GoError) → error_counts e ≡ error_counts (root e)
unfolding error_counts
error_counts-root e = ground (
  arith,
  is-root e not_found,
  is-root e no_rows,
  is-root e canceled,
  is-root e deadline_exceeded,
  as_pg-root e,
)

server_class : (class : String) → class_counts class ≡ true → IsServerClass class
unfolding class_counts
server_class class h = ground (
  arith,
  eq_iff class "53",
  eq_iff class "57",
  eq_iff class "58",
  eq_iff class "08",
  eq_iff class "XX",
)

class_of_server : (class : String) → IsServerClass class → class_counts class ≡ true
unfolding class_counts
class_of_server class (inl p) = rw p
class_of_server class (inr (inl p)) = rw p
class_of_server class (inr (inr (inl p))) = rw p
class_of_server class (inr (inr (inr (inl p)))) = rw p
class_of_server class (inr (inr (inr (inr p)))) = rw p

root-counts : (e : GoError) → (error_counts (root e) ≡ true) ↔ IsInfrastructure (root e)
unfolding root error_counts is as_pg
root-counts (wrapped m e) = root-counts e
root-counts (sentinel circuit_open) = (λ h. tt, λ h. refl)
root-counts (sentinel not_found) = (λ h. cc, λ h. absurd h)
root-counts (sentinel conflict) = (λ h. tt, λ h. refl)
root-counts (sentinel no_rows) = (λ h. cc, λ h. absurd h)
root-counts (sentinel canceled) = (λ h. cc, λ h. absurd h)
root-counts (sentinel deadline_exceeded) = (λ h. tt, λ h. refl)
root-counts (sentinel open_state) = (λ h. tt, λ h. refl)
root-counts (sentinel too_many_requests) = (λ h. tt, λ h. refl)
root-counts (pg_error s) = (server_class s.class, class_of_server s.class)
root-counts (other m) = (λ h. tt, λ h. refl)

-- However often an error is wrapped, its innermost error alone decides whether it counts against
-- the breaker, and it counts exactly if that is an infrastructure failure: a missing record and a
-- cancelled request are none, a timeout and a driver error are, and a server error is one exactly
-- if the class of its SQLSTATE is 53, 57, 58, 08 or XX.
pub should_count_iff : (e : GoError) → (should_count (some e) ≡ true) ↔ IsInfrastructure (root e)
unfolding should_count
should_count_iff e =
    let (to, from) = root-counts e in
    (λ h. to (sym (error_counts-root e) ∙ h), λ h. error_counts-root e ∙ from h)
