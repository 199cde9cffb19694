-- ===== src/Tests/Answering.antt =====
-- What the service and the handlers answer where something fails, and the middlewares.
use production_ready_url_sho.Common.{
  ℕ, ◌≡◌, ◌<◌, ◌≤◌, ◌+◌, ◌*◌, refl, String, false, Option, none, some, ◌==◌, if◌then◌else◌, [], ◌∷◌,
  pos,
}
use production_ready_url_sho.Failure.{
  GoError, sentinel, deadline_exceeded, wrapped, Result, ok, err,
}
use production_ready_url_sho.Failure.Wrapping.{root}
use production_ready_url_sho.Context.{Ctx, background, second}
use production_ready_url_sho.Sql.{Tables, empty_tables}
use production_ready_url_sho.Repository.{RequestRepository}
use production_ready_url_sho.Repository.Calm.{table_urls, table_requests}
use production_ready_url_sho.Service.{shorten_url}
use production_ready_url_sho.Service.Results.{Says, shorten_url-Says}
use production_ready_url_sho.RateLimit.{RedisRateLimiter, Decision, decide, bucket_of}
use production_ready_url_sho.Http.{Reply, location, Request, Handler, ok_reply, status_payload}
use production_ready_url_sho.Http.Handlers.{
  created_reply, redirect_reply, readiness_reply, liveness,
}
use production_ready_url_sho.Http.Handlers.Statuses.{
  Answers, RedirectAnswers, failed_replies-Answer,
}
use production_ready_url_sho.Http.Limiting.{App, retry_seconds}
use production_ready_url_sho.Http.Limiting.Decisions.{retry_header_suffices}
use production_ready_url_sho.Http.Engine.{RouterDeps, serve_http}
use production_ready_url_sho.Http.Engine.Counting.{counted_requests, counted_once}
use production_ready_url_sho.Tests.Fixtures.{length_hash, stamp, log_stamp, outage}

shorten_url-Says_example :
    Says length_hash table_urls background stamp "https://go.dev"
      (shorten_url length_hash table_urls table_requests background stamp log_stamp "https://go.dev"
        "curl" empty_tables).0
shorten_url-Says_example =
    shorten_url-Says length_hash table_urls table_requests background stamp log_stamp
      "https://go.dev" "curl" empty_tables

-- A request log that is down.
abbrev no_log : RequestRepository Tables
no_log = record { log_create_request = λ ctx st id agent t. (err outage, t) }

abbrev timed_out : GoError
timed_out = wrapped "lookup short key" (sentinel deadline_exceeded)

failed_replies-Answer_example :
    Answers 500 "internal_error" (root timed_out) (created_reply (err timed_out))
    × RedirectAnswers (root timed_out) (redirect_reply (err timed_out))
    × Answers 503 "unavailable" (root timed_out) (readiness_reply (some timed_out))
failed_replies-Answer_example = failed_replies-Answer timed_out

abbrev denied : Decision
denied = record { allowed = false; remaining = 0; retry_after = second }

-- A limiter that is down, and one that denies, on a state that nobody reads.
abbrev broken_limiter : Ctx → String → ℕ → Result Decision × ℕ
broken_limiter ctx key s = (err outage, s)

abbrev strict_limiter : Ctx → String → ℕ → Result Decision × ℕ
strict_limiter ctx key s = (ok denied, s)

abbrev request : Request
request = record {
  method = "GET";
  path = "/key";
  ctx = background;
  remote = "1.2.3.4";
  user_agent = "curl";
  input = err outage;
  key = "key";
}

abbrev app : App ℕ
app = record { metrics = some (record { decisions = []; requests = [] }); inner = 0 }

abbrev empty_handler : Handler (App ℕ)
empty_handler req a = (ok_reply 200 (status_payload "empty"), a)

abbrev per_minute : RedisRateLimiter
per_minute = record { limit = pos 2; window = pos (60 * second); op_timeout = pos 0 }

retry_header_suffices_example :
    (1
      < bucket_of per_minute.window
          (90 * second + retry_seconds (decide per_minute 1 (90 * second) 3).retry_after * second))
    × (1 ≤ retry_seconds (decide per_minute 1 (90 * second) 3).retry_after)
unfolding decide
retry_header_suffices_example = retry_header_suffices per_minute 1 (90 * second) 3 refl

abbrev deps : RouterDeps ℕ
deps = record {
  liveness = liveness;
  readiness = liveness;
  create = liveness;
  redirect = liveness;
  swagger = liveness;
  rate_limiter = some strict_limiter;
}

abbrev full_path : Request → String
full_path req = "/:key"

-- gin's own redirect of one path.
abbrev slashes : Request → Option Reply
slashes req =
    if req.path == "/key/"
    then some (record { status = 301; headers = ("Location", "/key") ∷ []; body = location "/key" })
    else none

uncounted :
    let (reply, a) = serve_http slashes full_path deps (record request { path = "/key/" }) app in
    counted_requests a.metrics ≡ some []
unfolding serve_http
uncounted = refl

counted_once_example :
    let (reply, a) = serve_http slashes full_path deps request app in
    counted_requests a.metrics ≡ some (("GET", "/:key", reply.status) ∷ [])
unfolding serve_http
counted_once_example =
    counted_once full_path deps slashes request app (record { decisions = []; requests = [] }) refl

abbrev probe : Request
probe = record request { path = "/liveness"; key = "" }
