-- ===== src/Startup.antt =====
-- The start of the database layer: NewPool of internal/platform/databse/pool.go and NewRouter of
-- router.go there. pgxpool is the parameter `Pgxpool`; an open pool is a number. The tuning of the
-- pools is the library's to read, and is not modelled.
pub mod Pools
use production_ready_url_sho.Common.{ℕ, String, Option, none, some, ◌==◌, if◌then◌else◌}
use production_ready_url_sho.Failure.{GoError, Result, ok, err}
use production_ready_url_sho.Context.{Ctx}
use production_ready_url_sho.Breaker.{BreakerSettings, new_breaker}
use production_ready_url_sho.Breaker.Gobreaker.{Gobreaker}

pub record Pgxpool (S : Type 0) : Type 0 where
  -- `ParseConfig`, then `NewWithConfig`
  pub parse_config : String → Option GoError
  pub new_with_config : Ctx → String → S → Result ℕ × S
  pub ping : Ctx → ℕ → S → Option GoError × S
  pub close : ℕ → S → S

-- The two results of `NewPool`: no pool and an error, or a pool and what its ping returned.
pub data Opened : Type 0 where
  no_pool : GoError → Opened
  pool_and : ℕ → Option GoError → Opened

-- The breakers of the router, and the pools behind them.
pub record Started (C : Type 0) : Type 0 where
  pub primary : C × ℕ
  pub replica : Option (C × ℕ)

module _ {S : Type 0} (pgx : Pgxpool S) (ctx : Ctx) where
  unfoldable pub pinged : Result ℕ × S → Opened × S
  pinged (err e, s) = (no_pool e, s)
  pinged (ok p, s) = let (e, s') = pgx.ping ctx p s in (pool_and p e, s')

  unfoldable pub configured : Option GoError → String → S → Opened × S
  unfolding pinged
  configured none dsn s = pinged (pgx.new_with_config ctx dsn s)
  configured (some e) dsn s = (no_pool e, s)

  unfoldable pub new_pool : String → S → Opened × S
  unfolding configured
  new_pool dsn s = configured (pgx.parse_config dsn) dsn s

module _ {C S : Type 0} (g : Gobreaker C) (pgx : Pgxpool S) (ctx : Ctx)
    (primary_settings replica_settings : BreakerSettings) where
  -- The breaker of `newBreakerDB`.
  abbrev breaker : BreakerSettings → C
  breaker settings = g.new_circuit_breaker (new_breaker settings)

  -- From the answer for the replica on: its error closes the primary's pool alone.
  unfoldable pub with_replica : ℕ → Opened × S → Result (Started C) × S
  with_replica p (no_pool e, s) = (err e, pgx.close p s)
  with_replica p (pool_and q (some e), s) = (err e, pgx.close p s)
  with_replica p (pool_and q none, s) = (
    ok (record {
      primary = (breaker primary_settings, p);
      replica = some (breaker replica_settings, q);
    }),
    s,
  )

  unfoldable pub with_primary : String → Opened × S → Result (Started C) × S
  unfolding with_replica new_pool
  with_primary replica_dsn (no_pool e, s) = (err e, s)
  with_primary replica_dsn (pool_and p (some e), s) = (err e, s)
  with_primary replica_dsn (pool_and p none, s) =
      let other = with_replica p (new_pool pgx ctx replica_dsn s) in
      if replica_dsn == ""
      then (ok (record { primary = (breaker primary_settings, p); replica = none }), s)
      else other

  -- `NewRouterWithSettings`
  unfoldable pub new_router : (primary_dsn replica_dsn : String) → S → Result (Started C) × S
  unfolding with_primary
  new_router primary_dsn replica_dsn s = with_primary replica_dsn (new_pool pgx ctx primary_dsn s)

-- The cleanup function that comes with a router: the primary's pool first.
abbrev close_replica : {C S : Type 0} → Pgxpool S → Option (C × ℕ) → S → S
close_replica pgx none s = s
close_replica pgx (some (c, q)) s = pgx.close q s

unfoldable pub cleanup : {C S : Type 0} → Pgxpool S → Started C → S → S
cleanup pgx r s = close_replica pgx r.replica (pgx.close r.primary.1 s)
