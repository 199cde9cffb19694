-- ===== src/Wiring/EndToEnd.antt =====
-- From a `POST /shorten` to a `GET` of the short key, through the whole engine.
use production_ready_url_sho.Common.{
  ℕ, String, ◌≡◌, ◌⊎◌, inl, inr, ◌∙◌, refl, sym, ap, Option, some, List, ◌∷◌, arith,
}
use production_ready_url_sho.Failure.{Result, GoError, ok, err}
use production_ready_url_sho.Context.{Ctx}
use production_ready_url_sho.Model.{Stamp, Url}
use production_ready_url_sho.Dbtx.{Router}
use production_ready_url_sho.Repository.Postgres.{RouterLaws}
use production_ready_url_sho.RateLimit.{Decision}
use production_ready_url_sho.Http.{
  header_value, Reply, Request, Handler, ok_reply, url_payload, location,
}
use production_ready_url_sho.Http.Escaping.{hex_escape_non_ascii}
use production_ready_url_sho.Http.Handlers.{created_reply, create, redirect}
use production_ready_url_sho.Http.Handlers.Statuses.{create-valid}
use production_ready_url_sho.Http.Limiting.{App}
use production_ready_url_sho.Http.Engine.{RouterDeps, routes, handler_of, setup_router}
use production_ready_url_sho.Http.Engine.Bypass.{provided}
use production_ready_url_sho.Http.Engine.Passing.{
  denied, answered, on_second, wired, setup_router-Passing,
}
use production_ready_url_sho.Wiring.{Running}
use production_ready_url_sho.Wiring.RoundTrip.{service_at, create_then_follow}

-- A 201 with a URL says that it was created.
created_with :
    (r : Result Url) (u : Url)
    → (created_reply r).status ≡ 201
    → (created_reply r).body ≡ (ok_reply 201 (url_payload u)).body
    → created_reply r ≡ ok_reply 201 (url_payload u)
unfolding created_reply
created_with (ok v) u status body = cc body
created_with (err e) u status body = ground arith

module _ {R S : Type 0} (router : Router S) (laws : RouterLaws router) (sum256 : String → List ℕ)
    (full_path : Request → String) (message : GoError → String)
    (liveness readiness swagger : Handler (R × Running S)) where
  -- The engine as it handles one request, which has its own stamps and its own answer of the limiter.
  abbrev pub Limiter : Type 0
  Limiter = Option (Ctx → String → R → Result Decision × R)

  abbrev pub deps : Stamp → Stamp → Limiter → RouterDeps (R × Running S)
  deps st log_st limiter =
      let service = service_at router laws sum256 st log_st in
      record {
        liveness = liveness;
        readiness = readiness;
        create = on_second (create service message);
        redirect = on_second (redirect service);
        swagger = swagger;
        rate_limiter = wired limiter;
      }

  abbrev pub engine : Stamp → Stamp → Limiter → Handler (App (R × Running S))
  engine st log_st limiter = setup_router full_path (deps st log_st limiter)

  post_routed :
      (st log_st : Stamp) (limiter : Limiter) (method template : String)
      → method ≡ "POST"
      → template ≡ "/shorten"
      → handler_of (routes (deps st log_st limiter)) method template
        ≡ on_second (create (service_at router laws sum256 st log_st) message)
  unfolding handler_of
  post_routed st log_st limiter method template h k = rw (h, k) refl

  get_routed :
      (st log_st : Stamp) (limiter : Limiter) (method template : String)
      → method ≡ "GET"
      → template ≡ "/:key"
      → handler_of (routes (deps st log_st limiter)) method template
        ≡ on_second (redirect (service_at router laws sum256 st log_st))
  unfolding handler_of
  get_routed st log_st limiter method template h k = rw (h, k) refl

  -- Through the whole engine, on a router that meets the laws of a Postgres, as long as the database
  -- does not fail and reads see what was written: once a `POST /shorten` of a valid body, so of a URL
  -- with a scheme, has been answered by 201 with a URL, a `GET` of its short key, made next by any client, is denied by the
  -- limiter with 429, or it is answered by 301, with the text that was posted as its location, in
  -- the header with each byte outside ASCII percent-encoded, and starts one goroutine, for the row that was returned; whatever the stamps and the limiter's answers.
  pub shorten_then_follow :
      (st log_st st' log_st' : Stamp) (limiter limiter' : Limiter) (post get : Request)
      (original : String) (u : Url) (a : App (R × Running S))
      → laws.IsCalm a.inner.1.database
      → post.method ≡ "POST"
      → full_path (provided post) ≡ "/shorten"
      → post.input ≡ ok original
      → (engine st log_st limiter post a).0.status ≡ 201
      → (engine st log_st limiter post a).0.body ≡ (ok_reply 201 (url_payload u)).body
      → get.method ≡ "GET"
      → full_path (provided get) ≡ "/:key"
      → get.key ≡ u.short_key
      → let (r, a') = engine st' log_st' limiter' get (engine st log_st limiter post a).1 in
        (r.status ≡ 429)
        ⊎ ((r.status ≡ 301)
            × (header_value "Location" r.headers ≡ some (hex_escape_non_ascii original))
            × (r.body ≡ location original)
            × (a'.inner.1.pending ≡ u.id ∷ a.inner.1.pending))
  shorten_then_follow st log_st st' log_st' limiter limiter' post get original u a calm is_post
        to_shorten valid status body is_get to_key key =
      let service = service_at router laws sum256 st log_st in
      let service' = service_at router laws sum256 st' log_st' in
      let after = (engine st log_st limiter post a).1 in
      elim (setup_router-Passing full_path (deps st log_st limiter) (create service message) limiter
        post a refl (post_routed st log_st limiter post.method _ is_post to_shorten)) [
          | denied refused kept ↦ absurd (omega (arith, refused, status))
          | answered status' header' body' state ↦
              let posted =
                ap (λ x. x.0)
                  (create-valid service message (provided post) original a.inner.1 valid) in
              let created =
                posted
                ∙ created_with _ u
                    (ap (λ (x : Reply). x.status) (sym posted) ∙ sym status' ∙ status)
                    (ap (λ (x : Reply). x.body) (sym posted) ∙ sym body' ∙ body) in
              let (reply, pending) =
                create_then_follow router laws sum256 message st log_st st' log_st' (provided post)
                  (provided get) original u a.inner.1 calm valid created key in
              let same = ap (redirect service' (provided get)) state in
              elim (setup_router-Passing full_path (deps st' log_st' limiter') (redirect service')
                limiter' get after refl
                (get_routed st' log_st' limiter' get.method _ is_get to_key)) [
                  | denied refused kept ↦ inl refused
                  | answered status'' header'' body'' state'' ↦ inr (
                    status'' ∙ ap (λ x. x.0.status) same ∙ ap (λ (x : Reply). x.status) reply,
                    header''
                        ∙ ap (λ x. header_value "Location" x.0.headers) same
                        ∙ ap (λ (x : Reply). header_value "Location" x.headers) reply,
                    body'' ∙ ap (λ x. x.0.body) same ∙ ap (λ (x : Reply). x.body) reply,
                    ap (λ (x : Running S). x.pending) state''
                        ∙ ap (λ (x : Reply × Running S). x.1.pending) same
                        ∙ pending,
                  )
                ]
        ]
