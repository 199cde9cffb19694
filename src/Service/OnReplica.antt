-- ===== src/Service/OnReplica.antt =====
-- The service over the router of the program with a replica.
use production_ready_url_sho.Common.{ℕ, ◌≡◌, ◌∙◌, sym, ap, String, List, [], none}
use production_ready_url_sho.Failure.{ok, err, wrapped}
use production_ready_url_sho.Context.{Ctx}
use production_ready_url_sho.Model.{Stamp, Url}
use production_ready_url_sho.Keygen.{short_key_from_url}
use production_ready_url_sho.Sql.{unique_violation}
use production_ready_url_sho.Sql.Selecting.{find_live}
use production_ready_url_sho.Sql.Lasting.{run_all}
use production_ready_url_sho.Dbtx.{Dbtx}
use production_ready_url_sho.Breaker.{BreakerSettings}
use production_ready_url_sho.Breaker.Gobreaker.{Gobreaker}
use production_ready_url_sho.Breaker.Laws.{GobreakerLaws}
use production_ready_url_sho.Database.{Pools, pool_router}
use production_ready_url_sho.Database.Pooled.{PoolLaws}
use production_ready_url_sho.Database.Pooled.Replicated.{
  IsReplicated, replica_tables, copies, new_url_repository-copies, new_request_repository-copies,
}
use production_ready_url_sho.Repository.{
  UrlRepository, RequestRepository, new_url_repository, new_request_repository,
}
use production_ready_url_sho.Repository.Copied.{copy_urls, copy_requests}
use production_ready_url_sho.Service.{shorten_url, redirect}
use production_ready_url_sho.Service.Refinement.{Agree, shorten_url-Agree, redirect-Agree}
use production_ready_url_sho.Service.Lagging.{unknown, lagging_replica}

module _ {C S : Type 0} (g : Gobreaker C) (db : Dbtx S) where
  abbrev pub urls : UrlRepository (Pools C S)
  urls = new_url_repository (pool_router g db)

  abbrev pub requests : RequestRepository (Pools C S)
  requests = new_request_repository (pool_router g db)

module _ {C S : Type 0} (g : Gobreaker C) (laws : GobreakerLaws g)
    (cfg replica_cfg : BreakerSettings) (db : Dbtx S) (pool : PoolLaws db)
    (sum256 : String → List ℕ) (original : String) where
  shorten-copies :
      (ctx : Ctx) (st log_st : Stamp) (agent : String) (p : Pools C S)
      → IsReplicated g laws cfg replica_cfg db pool p
      → Agree
          (copies g laws cfg replica_cfg db pool)
          (IsReplicated g laws cfg replica_cfg db pool)
          (shorten_url sum256 (urls g db) (requests g db) ctx st log_st original agent p)
          (shorten_url sum256 copy_urls copy_requests ctx st log_st original agent
            (copies g laws cfg replica_cfg db pool p))
  shorten-copies ctx st log_st agent p h =
      shorten_url-Agree (copies g laws cfg replica_cfg db pool)
        (IsReplicated g laws cfg replica_cfg db pool) sum256
        (new_url_repository-copies g laws cfg replica_cfg db pool)
        (new_request_repository-copies g laws cfg replica_cfg db pool) ctx st log_st original agent
        p h

  -- On the router of the program, with a replica, closed breakers and pools that do not fail: if the
  -- replica has no row under the key of a URL and shortening it succeeds, then, as long as the
  -- replica has not caught up, its short key is answered with "not found", and to shorten the URL
  -- again fails with the violation of the unique index.
  pub replica_misses :
      (ctx ctx' ctx'' : Ctx) (st log_st st' log_st' : Stamp) (agent agent' : String)
      (p p' : Pools C S) (u : Url)
      → IsReplicated g laws cfg replica_cfg db pool p
      → find_live
          (short_key_from_url sum256 original)
          (replica_tables g laws cfg replica_cfg db pool p.replica).urls
        ≡ none
      → shorten_url sum256 (urls g db) (requests g db) ctx st log_st original agent p ≡ (ok u, p')
      → ((redirect (urls g db) ctx'' u.short_key p').0 ≡ unknown)
        × ((shorten_url sum256 (urls g db) (requests g db) ctx' st' log_st' original agent' p').0
            ≡ err (wrapped "create url" unique_violation))
  unfolding run_all
  replica_misses ctx ctx' ctx'' st log_st st' log_st' agent agent' p p' u h new shortened =
      let view = copies g laws cfg replica_cfg db pool in
      let first = shorten-copies ctx st log_st agent p h in
      let h' : IsReplicated g laws cfg replica_cfg db pool p' = rw shortened at first.keeps in
      let spec : shorten_url sum256 copy_urls copy_requests ctx st log_st original agent (view p)
          ≡ (ok u, view p') =
        λ i. (
          (sym first.result ∙ ap (λ x. x.0) shortened) i,
          (sym first.after ∙ ap (λ x. view x.1) shortened) i,
        ) in
      let (missing, fails, _) =
        lagging_replica sum256 original ctx ctx' ctx'' st log_st st' log_st' agent agent' (view p)
          (view p') [] u new spec tt in
      let followed =
        redirect-Agree view (IsReplicated g laws cfg replica_cfg db pool)
          (new_url_repository-copies g laws cfg replica_cfg db pool) ctx'' u.short_key p' h' in
      (
        followed.result ∙ missing,
        (shorten-copies ctx' st' log_st' agent' p' h').result ∙ ap (λ x. x.0) fails,
      )
