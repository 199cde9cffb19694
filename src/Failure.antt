-- ===== src/Failure.antt =====
-- Go's `error` values as the program builds and inspects them, and results that carry one:
-- internal/repository/errors.go, and the sentinels of `context`, pgx and gobreaker that the
-- program compares with.
pub mod Wrapping
use production_ready_url_sho.Common.{ℕ, String, Bool, false, Option, none, some, eqb}

-- The values that `errors.Is` is asked about.
pub data Sentinel : Type 0 where
  circuit_open not_found conflict : Sentinel
  no_rows : Sentinel
  canceled deadline_exceeded : Sentinel
  open_state too_many_requests : Sentinel

-- A SQLSTATE, split where the program splits it, `Code[:2]`: five characters by the protocol.
pub record SqlState : Type 0 where
  pub class : String
  pub condition : String

-- `wrapped` is `fmt.Errorf("message: %w", err)`; `other` is an error with no identity.
pub data GoError : Type 0 where
  sentinel : Sentinel → GoError
  pg_error : SqlState → GoError
  other : String → GoError
  wrapped : String → GoError → GoError

abbrev pub tag : Sentinel → ℕ
tag circuit_open = 0
tag not_found = 1
tag conflict = 2
tag no_rows = 3
tag canceled = 4
tag deadline_exceeded = 5
tag open_state = 6
tag too_many_requests = 7

-- `errors.Is(err, target)`
unfoldable pub is : GoError → Sentinel → Bool
is (sentinel s) t = eqb (tag s) (tag t)
is (pg_error s) t = false
is (other m) t = false
is (wrapped m e) t = is e t

-- `errors.As(err, &pgErr)`
unfoldable pub as_pg : GoError → Option SqlState
as_pg (sentinel s) = none
as_pg (pg_error s) = some s
as_pg (other m) = none
as_pg (wrapped m e) = as_pg e

-- A value or an error: Go's pairs `(value, err)` of which the program reads one.
pub data Result {ℓ} (A : Type ℓ) : Type ℓ where
  ok : A → Result A
  err : GoError → Result A

-- The error of a result, `nil` for a success.
abbrev pub error_of {ℓ} : {A : Type ℓ} → Result A → Option GoError
error_of (ok a) = none
error_of (err e) = some e

abbrev pub IsOk {ℓ} : {A : Type ℓ} → Result A → Type 0
IsOk (ok a) = Unit
IsOk (err e) = ⊥
