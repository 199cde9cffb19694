-- ===== src/Dbtx.antt =====
-- internal/repository/db.go: the interface of pgx that a repository needs. `S` is the state of
-- what stands behind the interface. Also `pgx.Rows` and `pgx.Row`, as far as `Scan` reads them, and
-- the `Router` interface of url_repo_impl.go.
use production_ready_url_sho.Common.{ℕ, Option, List}
use production_ready_url_sho.Failure.{GoError, Result}
use production_ready_url_sho.Context.{Ctx}
use production_ready_url_sho.Sql.{Command, Query, Columns}

-- The rows that `Next` delivers, each with what `Scan` makes of it, and what `Err` returns.
pub record Rows : Type 0 where
  pub items : List (Result Columns)
  pub failure : Option GoError

pub record Dbtx (S : Type 0) : Type 0 where
  pub exec : Ctx → Command → S → Result ℕ × S
  pub query : Ctx → Query → S → Result Rows × S

-- The two implementations of `pgx.Row` in platform/databse/router.go.
pub data Row : Type 0 where
  err_row : GoError → Row
  rows_to_row : Rows → Row

-- Asking for a side of the split may change the state, since a breaker is asked for its own.
pub record Router (S : Type 0) : Type 0 where
  pub reader : S → Dbtx S × S
  pub writer : Dbtx S
