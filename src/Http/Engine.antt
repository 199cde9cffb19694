-- ===== src/Http/Engine.antt =====
-- internal/api/router.go: the engine of `SetupRouter`. gin's matching of a request with the routes is
-- the parameter `full_path`, which returns the route's template, or "" if there is none; the requests
-- that gin redirects by itself, whose path differs from a route's in a slash at the end, are the
-- parameter `redirects`. What `gin.Default` and otelgin put around the chain is not modelled.
pub mod Counting
pub mod Throttling
pub mod Fleet
pub mod Bypass
pub mod Passing
use production_ready_url_sho.Common.{
  String, ◌&&◌, Option, none, some, List, [], ◌∷◌, ◌==◌, if◌then◌else◌,
}
use production_ready_url_sho.Failure.{Result}
use production_ready_url_sho.Context.{Ctx}
use production_ready_url_sho.RateLimit.{Decision}
use production_ready_url_sho.Http.{page, Reply, Request, Handler}
use production_ready_url_sho.Http.Limiting.{App, rate_limit, context_provider, http_metrics}

abbrev pub rate_limit_skip_prefixes : List String
rate_limit_skip_prefixes = "/liveness" ∷ "/readiness" ∷ "/swagger" ∷ []

-- The handlers, and a limiter if Redis is configured; the metrics are in the state.
pub record RouterDeps (S : Type 0) : Type 0 where
  pub liveness : Handler S
  pub readiness : Handler S
  pub create : Handler S
  pub redirect : Handler S
  pub swagger : Handler S
  pub rate_limiter : Option (Ctx → String → S → Result Decision × S)

pub record Route (S : Type 0) : Type 0 where
  pub method : String
  pub template : String
  pub handler : Handler S

abbrev pub routes : {S : Type 0} → RouterDeps S → List (Route S)
routes d =
    record { method = "GET"; template = "/liveness"; handler = d.liveness }
    ∷ record { method = "GET"; template = "/readiness"; handler = d.readiness }
    ∷ record { method = "POST"; template = "/shorten"; handler = d.create }
    ∷ record { method = "GET"; template = "/:key"; handler = d.redirect }
    ∷ record { method = "GET"; template = "/swagger/*any"; handler = d.swagger }
    ∷ []

abbrev not_routed : {S : Type 0} → Handler S
not_routed req s = (record { status = 404; headers = []; body = page "404 page not found" }, s)

-- The handler of the route with a method and a template.
unfoldable pub handler_of : {S : Type 0} → List (Route S) → (method template : String) → Handler S
handler_of [] method template = not_routed
handler_of (r ∷ rs) method template =
    if r.method == method && r.template == template
    then r.handler
    else handler_of rs method template

-- A handler leaves the metrics alone.
unfoldable pub on_inner : {S : Type 0} → Handler S → Handler (App S)
on_inner h req a = let (reply, s) = h req a.inner in (reply, record a { inner = s })

abbrev limited :
    {S : Type 0}
    → Option (Ctx → String → S → Result Decision × S)
    → Handler (App S)
    → Handler (App S)
limited none next = next
limited (some limiter) next = rate_limit limiter rate_limit_skip_prefixes next

module _ {S : Type 0} (full_path : Request → String) (d : RouterDeps S) where
  -- A request that gin does not redirect by itself.
  unfoldable pub dispatch : Handler (App S)
  unfolding handler_of on_inner
  dispatch req = on_inner (handler_of (routes d) req.method (full_path req)) req

  -- The chain in the order of `r.Use`.
  unfoldable pub setup_router : Handler (App S)
  unfolding dispatch http_metrics context_provider rate_limit
  setup_router = http_metrics full_path (context_provider (limited d.rate_limiter dispatch))

-- What gin answers by itself never gets to the chain.
abbrev unless_redirected : {S : Type 0} → Option Reply → Handler S → Handler S
unless_redirected none next req s = next req s
unless_redirected (some reply) next req s = (reply, s)

-- The engine that `SetupRouter` returns: `gin.Default` redirects slashes at the end of a path.
unfoldable pub serve_http :
    {S : Type 0}
    → (redirects : Request → Option Reply) → (full_path : Request → String) → RouterDeps S
    → Handler (App S)
unfolding setup_router
serve_http redirects full_path d req a =
    unless_redirected (redirects req) (setup_router full_path d) req a
