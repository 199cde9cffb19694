-- ===== src/Context.antt =====
-- internal/contextUtil/context.go, and the deadline that `context.WithTimeout` attaches.
-- A context is its values under the two typed keys and the time budget left to the calls made
-- under it, in nanoseconds. Time that passes inside a request only shortens the budget.
pub mod Budgets
use production_ready_url_sho.Common.{ℕ, String, Bool, false, Option, none, some, ltb, if◌then◌else◌}

pub record Ctx : Type 0 where
  pub budget : Option ℕ
  pub client_ip : Option String
  pub circuit_breaker_open : Option Bool

-- `context.Background()`
abbrev pub background : Ctx
background = record { budget = none; client_ip = none; circuit_breaker_open = none }

abbrev pub second : ℕ
second = 1_000_000_000

abbrev shorter : Option ℕ → ℕ → ℕ
shorter none d = d
shorter (some b) d = if ltb b d then b else d

-- `context.WithTimeout` can shorten a deadline, never extend it.
unfoldable pub with_timeout : Ctx → ℕ → Ctx
with_timeout ctx d = record ctx { budget = some (shorter ctx.budget d) }

unfoldable pub with_client_ip : Ctx → String → Ctx
with_client_ip ctx ip = record ctx { client_ip = some ip }

abbrev ip_or_unknown : Option String → String
ip_or_unknown none = "unknown"
ip_or_unknown (some ip) = ip

unfoldable pub get_client_ip : Ctx → String
get_client_ip ctx = ip_or_unknown ctx.client_ip

unfoldable pub with_circuit_open : Ctx → Bool → Ctx
with_circuit_open ctx open_now = record ctx { circuit_breaker_open = some open_now }

abbrev or_false : Option Bool → Bool
or_false none = false
or_false (some b) = b

unfoldable pub is_circuit_open : Ctx → Bool
is_circuit_open ctx = or_false ctx.circuit_breaker_open
