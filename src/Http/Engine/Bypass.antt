-- ===== src/Http/Engine/Bypass.antt =====
-- Short keys that begin like a health probe: the limiter does not see them.
use production_ready_url_sho.Common.{String, ◌≡◌, ◌∙◌, refl, ap, true, List, [], ◌∷◌, All, map}
use production_ready_url_sho.Context.{with_client_ip}
use production_ready_url_sho.Http.{Reply, Request, Handler}
use production_ready_url_sho.Http.Limiting.{App, skips, context_provider, http_metrics}
use production_ready_url_sho.Http.Engine.{
  RouterDeps, routes, rate_limit_skip_prefixes, handler_of, on_inner, dispatch, setup_router,
}
use production_ready_url_sho.Http.Engine.Counting.{limited-skipped}

-- Requests to a handler, one after the other: the replies and the state.
unfoldable pub serve_each : {S : Type 0} → Handler S → List Request → S → List Reply × S
serve_each h [] s = ([], s)
serve_each h (req ∷ reqs) s =
    let (reply, s') = h req s in let (replies, s'') = serve_each h reqs s' in (reply ∷ replies, s'')

-- The request as the handlers see it.
abbrev pub provided : Request → Request
provided req = record req { ctx = with_client_ip req.ctx req.remote }

module _ {S : Type 0} (full_path : Request → String) (d : RouterDeps S) where
  -- A `GET` that gin routes to the redirect, and whose path begins with a prefix that is skipped.
  pub record IsBypass (req : Request) : Type 0 where
    pub method : req.method ≡ "GET"
    pub template : full_path (provided req) ≡ "/:key"
    pub prefixed : skips rate_limit_skip_prefixes req.path ≡ true

  to_redirect :
      (method template : String)
      → method ≡ "GET"
      → template ≡ "/:key"
      → handler_of (routes d) method template ≡ d.redirect
  unfolding handler_of
  to_redirect method template h k = rw (h, k) refl

  redirected :
      (req : Request) (a : App S)
      → IsBypass req
      → ((setup_router full_path d req a).0 ≡ (d.redirect (provided req) a.inner).0)
        × ((setup_router full_path d req a).1.inner ≡ (d.redirect (provided req) a.inner).1)
  unfolding setup_router http_metrics context_provider dispatch on_inner
  redirected req a h =
      let same =
        limited-skipped (dispatch full_path d) d.rate_limiter (provided req) a h.prefixed in
      let there =
        ap (λ (f : Handler S). f (provided req) a.inner)
          (to_redirect req.method (full_path (provided req)) h.method h.template) in
      (
        ap (λ (x : Reply × App S). x.0) same ∙ ap (λ x. x.0) there,
        ap (λ (x : Reply × App S). x.1.inner) same ∙ ap (λ x. x.1) there,
      )

  -- The limiter does not protect the redirect: any number of `GET`s that gin routes to it, and whose
  -- paths begin with "/liveness", "/readiness" or "/swagger", get what the redirect handler answers,
  -- each of them, one after the other, and leave the state that the handler leaves, whatever limiter
  -- is wired and whatever it would say.
  pub prefixes_bypass :
      (reqs : List Request) (a : App S)
      → All IsBypass reqs
      → let x = serve_each (setup_router full_path d) reqs a in
        let y = serve_each d.redirect (map provided reqs) a.inner in (x.0 ≡ y.0) × (x.1.inner ≡ y.1)
  unfolding serve_each
  prefixes_bypass [] a h = (refl, refl)
  prefixes_bypass (req ∷ reqs) a (one, rest) =
      let (reply, state) = redirected req a one in
      let (replies, after) =
        rw state at (prefixes_bypass reqs (setup_router full_path d req a).1 rest) in
      (cc (reply, replies), after)
