-- ===== src/Wiring.antt =====
-- internal/service/service.go: the services over one router, as `New` builds them, and what the
-- handlers see of the URL service. `pending` are the identifiers that running goroutines of
-- `Redirect` are about to touch. No service implements `Initializable`, so the second phase of `New`
-- does nothing.
pub mod RoundTrip
pub mod Unconfigured
pub mod Deadlines
pub mod EndToEnd
use production_ready_url_sho.Common.{ℕ, String, Option, none, some, List, [], ◌∷◌}
use production_ready_url_sho.Failure.{Result, GoError}
use production_ready_url_sho.Context.{Ctx}
use production_ready_url_sho.Model.{Stamp, Url}
use production_ready_url_sho.Dbtx.{Router}
use production_ready_url_sho.Repository.{
  UrlRepository, RequestRepository, new_url_repository, new_request_repository,
}
use production_ready_url_sho.Service
use production_ready_url_sho.Service.{touch_last_used}
use production_ready_url_sho.Cleanup.{run_cleanup}
use production_ready_url_sho.RateLimit.{Redis, RedisRateLimiter, Decision, allow}
use production_ready_url_sho.Http.Handlers.{UrlService}
use production_ready_url_sho.Platform.Config.{Config}

pub record Running (S : Type 0) : Type 0 where
  pub database : S
  pub pending : List String

abbrev spawn : Option String → List String → List String
spawn none pending = pending
spawn (some id) pending = id ∷ pending

module _ {S : Type 0} (sum256 : String → List ℕ) (urls : UrlRepository S)
    (requests : RequestRepository S) (url_stamp log_stamp : Stamp) where
  serve_shorten : Ctx → String → String → Running S → Result Url × Running S
  serve_shorten ctx original agent a =
      let (r, s) =
        Service.shorten_url sum256 urls requests ctx url_stamp log_stamp original agent
          a.database in
      (r, record a { database = s })

  serve_redirect : Ctx → String → Running S → Result String × Running S
  serve_redirect ctx key a =
      let (r, s) = Service.redirect urls ctx key a.database in
      (r.target, record { database = s; pending = spawn r.spawned a.pending })

  -- `NewURLService`
  unfoldable pub new_url_service : UrlService (Running S)
  unfolding serve_shorten serve_redirect
  new_url_service = record { shorten_url = serve_shorten; redirect = serve_redirect }

-- One pending goroutine runs; the others stay.
unfoldable pub run_pending : {S : Type 0} → UrlRepository S → (now : ℕ) → Running S → Running S
run_pending urls now a = elim a.pending [
  | [] ↦ a
  | id ∷ ids ↦ record { database = touch_last_used urls now id a.database; pending = ids }
]

-- `Services`: the limiter is wired only with a Redis and a configuration.
pub record Services (S R : Type 0) : Type 0 where
  pub url : UrlService (Running S)
  pub cleanup : Ctx → (now later : ℕ) → S → Option GoError × S
  pub rate_limiter : Option (Ctx → (now until : ℕ) → String → R → Result Decision × R)

-- `NewRedisRateLimiter` from the configuration.
abbrev pub limiter_of : Config → RedisRateLimiter
limiter_of cfg = record {
  limit = cfg.rate_limit_per_minute;
  window = cfg.rate_limit_window;
  op_timeout = cfg.redis_op_timeout;
}

abbrev limiter_for :
    {R : Type 0}
    → Config
    → Option (Redis R)
    → Option (Ctx → (now until : ℕ) → String → R → Result Decision × R)
limiter_for cfg none = none
limiter_for cfg (some redis) = some (allow redis (limiter_of cfg))

pub new_services :
    {S R : Type 0}
    → (String → List ℕ)
    → Router S
    → Option (Redis R)
    → Config
    → (url_stamp log_stamp : Stamp) → Services S R
new_services sum256 router redis cfg url_stamp log_stamp =
    let urls = new_url_repository router in
    record {
      url = new_url_service sum256 urls (new_request_repository router) url_stamp log_stamp;
      cleanup = run_cleanup urls cfg.url_unused_threshold;
      rate_limiter = limiter_for cfg redis;
    }
