-- ===== src/Database/Pooled/Routed.antt =====
-- The router of the program, over two pools behind circuit breakers.
use production_ready_url_sho.Common.{◌≡◌, inl, inr, refl, Option, none, some, Bool-cases}
use production_ready_url_sho.Failure.{ok}
use production_ready_url_sho.Context.{Ctx}
use production_ready_url_sho.Sql.{Command, update_last_used, execute, Query, select_by_short_key}
use production_ready_url_sho.Dbtx.{Dbtx}
use production_ready_url_sho.Breaker.{BreakerSettings}
use production_ready_url_sho.Breaker.Gobreaker.{Gobreaker}
use production_ready_url_sho.Breaker.Laws.{GobreakerLaws}
use production_ready_url_sho.Database.{
  Pools, primary_db, replica_db, on_primary, on_side, choose, is_opened, reader, pool_router,
}
use production_ready_url_sho.Repository.Postgres.{delivered, Exec, RouterLaws}
use production_ready_url_sho.Database.Pooled.{
  PoolLaws, IsReady, breaker_exec-Exec, breaker_query-tables, breaker_exec-calm, breaker_query-calm,
}

module _ {C S : Type 0} (g : Gobreaker C) (laws : GobreakerLaws g) (cfg : BreakerSettings)
    (db : Dbtx S) (pool : PoolLaws db) where
  choose-tables :
      (ctx : Ctx) (q : Query) (p : Pools C S) (replica : Option (C × S))
      → let (side, p') = choose g db p replica in
        pool.tables (side.query ctx q p').1.primary.1 ≡ pool.tables p.primary.1
  unfolding choose primary_db replica_db on_side on_primary
  choose-tables ctx q p none = breaker_query-tables g laws cfg db pool ctx q p.primary
  choose-tables ctx q p (some (c, s)) = elim (Bool-cases (is_opened (g.state c).0)) [
    | inl open_now ↦ rw open_now (breaker_query-tables g laws cfg db pool ctx q p.primary)
    | inr shut ↦ rw shut refl
  ]

  -- No replica is configured, the primary's breaker is closed and stays so, and its pool does not
  -- fail.
  pub record IsFair (p : Pools C S) : Type 0 where
    pub ready : IsReady g laws cfg db pool p.primary.0
    pub calm : pool.IsCalm p.primary.1
    pub alone : p.replica ≡ none

  choose-none :
      (ctx : Ctx) (q : Query) (p : Pools C S) (replica : Option (C × S))
      → replica ≡ none
      → choose g db p replica ≡ (primary_db g db, p)
  unfolding choose
  choose-none ctx q p none h = refl
  choose-none ctx q p (some x) h = cc

  -- A write on the pool router, in fair weather and foul: either it runs on the primary as the SQL
  -- says, with the SQL's own result; or the caller gets an error, and the primary's tables are as
  -- they were or as the statement leaves them.
  pub pooled_exec :
      (ctx : Ctx) (cmd : Command) (p : Pools C S)
      → let (r, p') = (pool_router g db).writer.exec ctx cmd p in
        Exec (pool.tables p.primary.1) cmd r (pool.tables p'.primary.1)
  unfolding primary_db on_primary
  pooled_exec ctx cmd p = breaker_exec-Exec g laws cfg db pool ctx cmd p.primary

  pub pooled_read-tables :
      (ctx : Ctx) (q : Query) (p : Pools C S)
      → let (side, p') = (pool_router g db).reader p in
        pool.tables (side.query ctx q p').1.primary.1 ≡ pool.tables p.primary.1
  unfolding reader
  pooled_read-tables ctx q p = choose-tables ctx q p p.replica

  -- With no replica, a closed breaker on the primary and a pool that does not fail, a write and a
  -- read on the pool router give what the SQL gives, and leave the router in such a state: the
  -- violations of constraints that a write may report do not open the breaker.
  pub pooled_calm :
      (ctx : Ctx) (cmd : Command) (q : Query) (p : Pools C S)
      → IsFair p
      → let (r, p1) = (pool_router g db).writer.exec ctx cmd p in
        let (side, p2) = (pool_router g db).reader p in
        let (rows, p3) = side.query ctx q p2 in
        ((r ≡ (execute cmd (pool.tables p.primary.1)).0)
          × (pool.tables p1.primary.1 ≡ (execute cmd (pool.tables p.primary.1)).1)
          × IsFair p1)
        × ((rows ≡ ok (delivered q (pool.tables p.primary.1))) × IsFair p3)
  unfolding primary_db on_primary reader
  pooled_calm ctx cmd q p fair =
      let (result, after, ready, calm) =
        breaker_exec-calm g laws cfg db pool ctx cmd p.primary.0 p.primary.1 fair.ready fair.calm in
      let (rows, ready', calm') =
        breaker_query-calm g laws cfg db pool ctx q p.primary.0 p.primary.1 fair.ready fair.calm in
      rw (choose-none ctx q p p.replica fair.alone) (
        ((result, after, record { ready = ready; calm = calm; alone = fair.alone })),
        (rows, record { ready = ready'; calm = calm'; alone = fair.alone }),
      )

  -- The laws that the repositories rely on hold of the pool router.
  abbrev pub pool_router-RouterLaws : RouterLaws (pool_router g db)
  pool_router-RouterLaws = record {
    tables = λ p. pool.tables p.primary.1;
    IsCalm = IsFair;
    exec_honest = pooled_exec;
    read_pure = pooled_read-tables;
    exec_calm = λ ctx cmd p fair. (pooled_calm ctx cmd (select_by_short_key "") p fair).0;
    read_calm = λ ctx q p fair. (pooled_calm ctx (update_last_used 0 "") q p fair).1;
  }
