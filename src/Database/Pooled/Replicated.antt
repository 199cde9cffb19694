-- ===== src/Database/Pooled/Replicated.antt =====
-- The router of the program with a replica whose breaker is closed: the repositories over it do what
-- they do on two copies of the tables.
use production_ready_url_sho.Common.{String, ◌≡◌, ◌∙◌, refl, sym, ap, Option, none, some}
use production_ready_url_sho.Failure.{ok}
use production_ready_url_sho.Context.{Ctx, with_timeout}
use production_ready_url_sho.Sql.{
  Command, insert_url, update_last_used, delete_unused, insert_request, execute, Query,
  select_by_short_key, select, Tables, empty_tables,
}
use production_ready_url_sho.Dbtx.{Dbtx}
use production_ready_url_sho.Breaker.{BreakerSettings}
use production_ready_url_sho.Breaker.Gobreaker.{Gobreaker, State, closed}
use production_ready_url_sho.Breaker.Laws.{GobreakerLaws}
use production_ready_url_sho.Database.{
  Pools, primary_db, replica_db, on_primary, on_side, choose, reader, pool_router, breaker_query,
  query_row,
}
use production_ready_url_sho.Repository.{
  db_call_timeout, done, kept, request_row, new_url_repository, new_request_repository,
}
use production_ready_url_sho.Repository.Postgres.{delivered}
use production_ready_url_sho.Repository.Calm.{Simulates, UrlRefines, RequestRefines, scan-delivered}
use production_ready_url_sho.Repository.Copied.{Copies, copy_urls, copy_requests}
use production_ready_url_sho.Database.Pooled.{
  PoolLaws, IsReady, breaker_exec-calm, breaker_query-calm, breaker_query-tables,
}

module _ {C S : Type 0} (g : Gobreaker C) (laws : GobreakerLaws g)
    (cfg replica_cfg : BreakerSettings) (db : Dbtx S) (pool : PoolLaws db) where
  -- A replica is configured, both breakers are closed and stay so, and neither pool fails.
  pub record IsReplicated (p : Pools C S) : Type 0 where
    pub ready : IsReady g laws cfg db pool p.primary.0
    pub calm : pool.IsCalm p.primary.1
    pub breaker : C
    pub copy : S
    pub there : p.replica ≡ some (breaker, copy)
    pub replica_ready : IsReady g laws replica_cfg db pool breaker
    pub replica_calm : pool.IsCalm copy

  abbrev pub replica_tables : Option (C × S) → Tables
  replica_tables none = empty_tables
  replica_tables (some (c, s)) = pool.tables s

  abbrev pub copies : Pools C S → Copies
  copies p = record { primary = pool.tables p.primary.1; replica = replica_tables p.replica }

  -- A closed breaker lets the replica be chosen.
  choose-replica :
      (p : Pools C S) (c : C) (s : S)
      → IsReady g laws replica_cfg db pool c
      → choose g db p (some (c, s)) ≡ (replica_db g db, record p { replica = some (c, s) })
  unfolding choose
  choose-replica p c s ready =
      let asked : g.state c ≡ (closed, c) =
        laws.state_mode c ready.steady ∙ ap (λ (m : State). (m, c)) ready.closed_now in
      rw asked refl

  reader-replica :
      (p : Pools C S) (h : IsReplicated p)
      → reader g db p ≡ (replica_db g db, record p { replica = some (h.breaker, h.copy) })
  unfolding reader
  reader-replica p h =
      ap (choose g db p) h.there ∙ choose-replica p h.breaker h.copy h.replica_ready

  -- A read gives what the replica's tables hold.
  pub read-copies :
      (ctx : Ctx) (q : Query) (p : Pools C S)
      → IsReplicated p
      → let (side, p1) = reader g db p in
        let (rows, p2) = side.query ctx q p1 in
        (rows ≡ ok (delivered q (replica_tables p.replica)))
        × (copies p2 ≡ copies p)
        × IsReplicated p2
  unfolding replica_db on_side
  read-copies ctx q p h =
      let (rows, ready, calm) =
        breaker_query-calm g laws replica_cfg db pool ctx q h.breaker h.copy h.replica_ready
          h.replica_calm in
      let tables : replica_tables p.replica ≡ pool.tables h.copy = ap replica_tables h.there in
      let x = breaker_query g db ctx q (h.breaker, h.copy) in
      let same : pool.tables x.1.1 ≡ replica_tables p.replica =
        breaker_query-tables g laws replica_cfg db pool ctx q (h.breaker, h.copy) ∙ sym tables in
      rw (reader-replica p h) (
        rows ∙ ap (λ (t : Tables). ok (delivered q t)) (sym tables),
        λ i. record { primary = pool.tables p.primary.1; replica = same i },
        record {
          ready = h.ready;
          calm = h.calm;
          breaker = x.1.0;
          copy = x.1.1;
          there = refl;
          replica_ready = ready;
          replica_calm = calm;
        },
      )

  -- A write changes the primary's tables alone.
  pub write-copies :
      (ctx : Ctx) (cmd : Command) (p : Pools C S)
      → IsReplicated p
      → let (r, p') = (pool_router g db).writer.exec ctx cmd p in
        let (r', t) = execute cmd (pool.tables p.primary.1) in
        (r ≡ r') × (copies p' ≡ record (copies p) { primary = t }) × IsReplicated p'
  unfolding primary_db on_primary
  write-copies ctx cmd p h =
      let (result, after, ready, calm) =
        breaker_exec-calm g laws cfg db pool ctx cmd p.primary.0 p.primary.1 h.ready h.calm in
      (
        result,
        λ i. record { primary = after i; replica = replica_tables p.replica },
        record {
          ready = ready;
          calm = calm;
          breaker = h.breaker;
          copy = h.copy;
          there = h.there;
          replica_ready = h.replica_ready;
          replica_calm = h.replica_calm;
        },
      )

  get-copies :
      (ctx : Ctx) (key : String)
      → Simulates copies IsReplicated
          ((new_url_repository (pool_router g db)).get_by_short_key ctx key)
          (copy_urls.get_by_short_key ctx key)
  unfolding new_url_repository query_row select
  get-copies ctx key =
      let q = select_by_short_key key in
      let ctx' = with_timeout ctx db_call_timeout in
      record {
        result = λ p h.
            rw (read-copies ctx' q p h).0 (scan-delivered key (replica_tables p.replica).urls);
        after = λ p h. (read-copies ctx' q p h).1;
        keeps = λ p h. (read-copies ctx' q p h).2;
      }

  -- While no call fails and the breakers are closed, the repository of URLs over the router of the
  -- program, with a replica, returns what it returns on two copies of the tables, of which lookups
  -- read the replica's and writes change the primary's.
  pub new_url_repository-copies :
      UrlRefines copies IsReplicated (new_url_repository (pool_router g db)) copy_urls
  unfolding new_url_repository
  new_url_repository-copies =
      let run = λ (ctx : Ctx) (cmd : Command) (p : Pools C S) (h : IsReplicated p).
        write-copies (with_timeout ctx db_call_timeout) cmd p h in
      record {
        create = λ ctx u. record {
          result = λ p h. ap done (run ctx (insert_url u) p h).0;
          after = λ p h. (run ctx (insert_url u) p h).1;
          keeps = λ p h. (run ctx (insert_url u) p h).2;
        };
        get = get-copies;
        update = λ ctx now id. record {
          result = λ p h. ap done (run ctx (update_last_used now id) p h).0;
          after = λ p h. (run ctx (update_last_used now id) p h).1;
          keeps = λ p h. (run ctx (update_last_used now id) p h).2;
        };
        delete = λ ctx now cutoff. record {
          result = λ p h. (run ctx (delete_unused now cutoff) p h).0;
          after = λ p h. (run ctx (delete_unused now cutoff) p h).1;
          keeps = λ p h. (run ctx (delete_unused now cutoff) p h).2;
        };
      }

  pub new_request_repository-copies :
      RequestRefines copies IsReplicated (new_request_repository (pool_router g db)) copy_requests
  unfolding new_request_repository
  new_request_repository-copies = record {
    log = λ ctx st id agent.
        let ctx' = with_timeout ctx db_call_timeout in
        let req = request_row ctx' st id agent in
        record {
          result = λ p h. ap (kept req) (write-copies ctx' (insert_request req) p h).0;
          after = λ p h. (write-copies ctx' (insert_request req) p h).1;
          keeps = λ p h. (write-copies ctx' (insert_request req) p h).2;
        };
  }
