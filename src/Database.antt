-- ===== src/Database.antt =====
-- internal/platform/databse/router.go: the pools behind their breakers, and the side that a
-- repository gets for a read or a write.
pub mod Outage
pub mod Trip
pub mod Sides
pub mod Scanning
pub mod Probing
pub mod Failover
pub mod Pooled
use production_ready_url_sho.Common.{
  ℕ, Bool, true, false, ◌||◌, Option, none, some, List, [], ◌∷◌, if◌then◌else◌,
}
use production_ready_url_sho.Failure.{
  GoError, sentinel, circuit_open, no_rows, open_state, too_many_requests, is, Result, ok, err,
}
use production_ready_url_sho.Context.{Ctx}
use production_ready_url_sho.Sql.{Command, Query, Columns}
use production_ready_url_sho.Dbtx.{Rows, Dbtx, Row, err_row, rows_to_row, Router}
use production_ready_url_sho.Breaker.Gobreaker.{Gobreaker, State, opened, execute}

unfoldable pub is_breaker_open : GoError → Bool
is_breaker_open e = is e open_state || is e too_many_requests

-- The error that `Exec`, `Query` and `QueryRow` report.
abbrev pub surfaced : GoError → GoError
surfaced e = if is_breaker_open e then sentinel circuit_open else e

abbrev pub surface {ℓ} : {A : Type ℓ} → Result A → Result A
surface (ok a) = ok a
surface (err e) = err (surfaced e)

abbrev as_row : Result Rows → Row
as_row (ok rows) = rows_to_row rows
as_row (err e) = err_row (surfaced e)

-- `breakerDB`: the state is the breaker's and that of the pool behind it.
module _ {C S : Type 0} (g : Gobreaker C) (db : Dbtx S) where
  unfoldable pub breaker_exec : Ctx → Command → C × S → Result ℕ × (C × S)
  unfolding is_breaker_open execute
  breaker_exec ctx cmd (c, s) =
      let (r, c', s') = execute g (db.exec ctx cmd) c s in (surface r, (c', s'))

  unfoldable pub breaker_query : Ctx → Query → C × S → Result Rows × (C × S)
  unfolding is_breaker_open execute
  breaker_query ctx q (c, s) =
      let (r, c', s') = execute g (db.query ctx q) c s in (surface r, (c', s'))

  abbrev pub breaker_db : Dbtx (C × S)
  breaker_db = record { exec = breaker_exec; query = breaker_query }

-- `QueryRow` of a breakerDB runs `Query` underneath.
unfoldable pub query_row : {S : Type 0} → Dbtx S → Ctx → Query → S → Row × S
query_row db ctx q s = let (r, s') = db.query ctx q s in (as_row r, s')

abbrev or_no_rows : Option GoError → GoError
or_no_rows none = sentinel no_rows
or_no_rows (some e) = e

abbrev unless_failed {ℓ} : {A : Type ℓ} → A → Option GoError → Result A
unless_failed a none = ok a
unless_failed a (some e) = err e

scan_items : List (Result Columns) → Option GoError → Result Columns
scan_items [] failure = err (or_no_rows failure)
scan_items (err e ∷ items) failure = err e
scan_items (ok c ∷ items) failure = unless_failed c failure

-- `Scan` of `errRow` and of `rowsToRow`
unfoldable pub scan : Row → Result Columns
unfolding scan_items
scan (err_row e) = err e
scan (rows_to_row rows) = scan_items rows.items rows.failure

-- `poolRouter`: the primary's breaker and pool, and the replica's, if one is configured.
pub record Pools (C S : Type 0) : Type 0 where
  pub primary : C × S
  pub replica : Option (C × S)

abbrev is_opened : State → Bool
is_opened opened = true
is_opened _ = false

module _ {C S : Type 0} (g : Gobreaker C) (db : Dbtx S) where
  on_primary : {A : Type 0} → (C × S → A × (C × S)) → Pools C S → A × Pools C S
  on_primary f p = let (a, x) = f p.primary in (a, record p { primary = x })

  on_side : {A : Type 0} → (C × S → A × (C × S)) → Pools C S → Option (C × S) → A × Pools C S
  unfolding on_primary
  on_side f p none = on_primary f p
  on_side f p (some x) = let (a, x') = f x in (a, record p { replica = some x' })

  unfoldable pub primary_db : Dbtx (Pools C S)
  unfolding on_primary breaker_exec breaker_query
  primary_db = record {
    exec = λ ctx cmd. on_primary (breaker_exec g db ctx cmd);
    query = λ ctx q. on_primary (breaker_query g db ctx q);
  }

  -- The replica's breakerDB; it is chosen only where there is a replica.
  unfoldable pub replica_db : Dbtx (Pools C S)
  unfolding on_side breaker_exec breaker_query
  replica_db = record {
    exec = λ ctx cmd p. on_side (breaker_exec g db ctx cmd) p p.replica;
    query = λ ctx q p. on_side (breaker_query g db ctx q) p p.replica;
  }

  choose : Pools C S → Option (C × S) → Dbtx (Pools C S) × Pools C S
  unfolding primary_db replica_db
  choose p none = (primary_db, p)
  choose p (some (c, s)) =
      let (st, c') = g.state c in
      let p' = record p { replica = some (c', s) } in
      if is_opened st then (primary_db, p') else (replica_db, p')

  unfoldable pub reader : Pools C S → Dbtx (Pools C S) × Pools C S
  unfolding choose
  reader p = choose p p.replica

  abbrev pub pool_router : Router (Pools C S)
  pool_router = record { reader = reader; writer = primary_db }
