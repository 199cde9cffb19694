-- ===== src/Wiring/RoundTrip.antt =====
-- From a `POST /shorten` to a `GET` of the short key, through handlers, service, repositories and
-- router.
use production_ready_url_sho.Common.{ℕ, ◌≡◌, ◌∙◌, refl, sym, ap, String, some, List, [], ◌∷◌}
use production_ready_url_sho.Failure.{Result, ok, GoError}
use production_ready_url_sho.Context.{Ctx, with_timeout}
use production_ready_url_sho.Model.{Stamp, Url}
use production_ready_url_sho.Dbtx.{Router}
use production_ready_url_sho.Repository.{new_url_repository, new_request_repository}
use production_ready_url_sho.Repository.Postgres.{RouterLaws}
use production_ready_url_sho.Repository.Calm.{
  table_urls, new_url_repository-refines, new_request_repository-refines,
}
use production_ready_url_sho.Service
use production_ready_url_sho.Service.Refinement.{Agree, shorten_url-Agree, redirect-Agree}
use production_ready_url_sho.Service.Lifecycle.Shortened.{shorten}
use production_ready_url_sho.Service.Lifecycle.Returning.{redirect-shorten}
use production_ready_url_sho.Http.{Request, ok_reply, url_payload, location}
use production_ready_url_sho.Http.Escaping.{hex_escape_non_ascii}
use production_ready_url_sho.Http.Handlers.{
  UrlService, redirect_reply, create, redirect, create_timeout, redirect_timeout,
}
use production_ready_url_sho.Http.Handlers.Statuses.{created-ok, create-valid}
use production_ready_url_sho.Wiring.{Running, new_url_service}

module _ {S : Type 0} (router : Router S) (laws : RouterLaws router)
    (sum256 : String → List ℕ) where
  -- The URL service of one request, with the request's own stamps.
  abbrev pub service_at : Stamp → Stamp → UrlService (Running S)
  service_at = new_url_service sum256 (new_url_repository router) (new_request_repository router)

  abbrev real_shorten : Ctx → Stamp → Stamp → String → String → S → Result Url × S
  real_shorten ctx st log_st original agent s =
      Service.shorten_url sum256 (new_url_repository router) (new_request_repository router) ctx st
        log_st original agent s

  agree :
      (ctx : Ctx) (st log_st : Stamp) (original agent : String) (s : S)
      → laws.IsCalm s
      → Agree laws.tables laws.IsCalm
          (real_shorten ctx st log_st original agent s)
          (shorten sum256 ctx st log_st original agent (laws.tables s))
  agree =
      shorten_url-Agree laws.tables laws.IsCalm sum256 (new_url_repository-refines router laws)
        (new_request_repository-refines router laws)

  -- The service, on a database in fair weather: what it returned is found under its key.
  service_round_trip :
      (ctx ctx' : Ctx) (st log_st : Stamp) (original agent : String) (s : S) (u : Url)
      → laws.IsCalm s
      → (real_shorten ctx st log_st original agent s).0 ≡ ok u
      → (Service.redirect
          (new_url_repository router)
          ctx'
          u.short_key
          (real_shorten ctx st log_st original agent s).1).0
        ≡ record { target = ok original; spawned = some u.id }
  service_round_trip ctx ctx' st log_st original agent s u calm h =
      let a = agree ctx st log_st original agent s calm in
      let t' = (shorten sum256 ctx st log_st original agent (laws.tables s)).1 in
      let b =
        redirect-Agree laws.tables laws.IsCalm (new_url_repository-refines router laws) ctx'
          u.short_key (real_shorten ctx st log_st original agent s).1 a.keeps in
      b.result
      ∙ ap (λ t. (Service.redirect table_urls ctx' u.short_key t).0) a.after
      ∙ ap (λ x. x.0)
          (redirect-shorten sum256 ctx original st log_st agent (laws.tables s) t' u ctx'
            (ap (λ r. (r, t')) (sym a.result ∙ h)))

  -- A `GET` of a key under which the service finds `original`.
  follow :
      (st log_st : Stamp) (ctx : Ctx) (k key original id : String) (a : Running S)
      → k ≡ key
      → (Service.redirect (new_url_repository router) ctx key a.database).0
        ≡ record { target = ok original; spawned = some id }
      → let x = (service_at st log_st).redirect ctx k a in
        (redirect_reply x.0 ≡ record {
          status = 301;
          headers = ("Location", hex_escape_non_ascii original) ∷ [];
          body = location original;
        })
        × (x.1.pending ≡ id ∷ a.pending)
  unfolding new_url_service redirect_reply
  follow st log_st ctx k key original id a same h = rw (same, h) (refl, refl)

  -- On a router that meets the laws of a Postgres, as long as the database does not fail and reads
  -- see what was written: once a `POST /shorten` of a valid body has been answered by 201 with a
  -- URL, a `GET` of its short key, made next by any client, is answered by 301 to the text
  -- that was posted, its bytes outside ASCII percent-encoded in the header, whatever the stamps and
  -- contexts, and starts one goroutine, for the row that was returned.
  pub create_then_follow :
      (message : GoError → String) (st log_st st' log_st' : Stamp) (post get : Request)
      (original : String) (u : Url) (a : Running S)
      → laws.IsCalm a.database
      → post.input ≡ ok original
      → (create (service_at st log_st) message post a).0 ≡ ok_reply 201 (url_payload u)
      → get.key ≡ u.short_key
      → let (r, a') =
          redirect (service_at st' log_st') get (create (service_at st log_st) message post a).1 in
        (r ≡ record {
          status = 301;
          headers = ("Location", hex_escape_non_ascii original) ∷ [];
          body = location original;
        })
        × (a'.pending ≡ u.id ∷ a.pending)
  unfolding create redirect new_url_service redirect_reply
  create_then_follow message st log_st st' log_st' post get original u a calm valid h key =
      let ctx = with_timeout post.ctx create_timeout in
      let ctx' = with_timeout get.ctx redirect_timeout in
      let posted = create-valid (service_at st log_st) message post original a valid in
      let stored = created-ok _ u (sym (ap (λ x. x.0) posted) ∙ h) in
      let there =
        service_round_trip ctx ctx' st log_st original post.user_agent a.database u calm stored in
      rw posted (follow st' log_st' ctx' get.key u.short_key original u.id _ key there)
