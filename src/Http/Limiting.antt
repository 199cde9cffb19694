-- ===== src/Http/Limiting.antt =====
-- internal/api/middleware: ratelimit.go, context.go and metrics.go. A middleware takes the rest of
-- the chain, which is what `c.Next` runs; not to call it is `c.Abort`.
pub mod Decisions
use Prim.Native.String.{String}
use text.Mathlib.Text.{starts_with}
use production_ready_url_sho.Common.{
  ℕ, ◌+◌, ◌/◌, Bool, false, ◌||◌, Option, none, some, List, [], ◌∷◌, ltb, if◌then◌else◌, ◌==◌,
}
use production_ready_url_sho.Failure.{Result, ok, err}
use production_ready_url_sho.Context.{Ctx, second, with_client_ip, get_client_ip}
use production_ready_url_sho.Keygen.Decimal.{itoa}
use production_ready_url_sho.RateLimit.{Decision}
use production_ready_url_sho.Http.{Reply, error_reply, Request, Handler}

-- The counters of the registry, as the label values that were counted, the last first.
pub record Metrics : Type 0 where
  pub decisions : List String
  pub requests : List (String × String × ℕ)

-- The state of the program behind the metrics; `none` is a registry that is not wired.
pub record App (S : Type 0) : Type 0 where
  pub metrics : Option Metrics
  pub inner : S

abbrev add_decision : String → Option Metrics → Option Metrics
add_decision d none = none
add_decision d (some m) = some (record m { decisions = d ∷ m.decisions })

unfoldable pub record_decision : {S : Type 0} → String → App S → App S
record_decision d a = record a { metrics = add_decision d a.metrics }

-- `strings.HasPrefix` with any of the prefixes
unfoldable pub skips : List String → String → Bool
skips [] path = false
skips (prefix ∷ prefixes) path = starts_with path prefix || skips prefixes path

abbrev pub with_header : String → String → Reply → Reply
with_header name value reply = record reply { headers = (name, value) ∷ reply.headers }

-- `int(math.Ceil(retryAfter.Seconds()))`, at least 1. The float is exact enough for a window of
-- less than 2 ^ 22 seconds.
unfoldable pub retry_seconds : ℕ → ℕ
retry_seconds retry_after = let s = (retry_after + 999_999_999) / second in if ltb s 1 then 1 else s

abbrev pub denial : ℕ → Reply
denial retry_after =
    with_header "Retry-After" (itoa (retry_seconds retry_after))
      (error_reply 429 "rate_limited" "rate limit exceeded")

module _ {S : Type 0} (limiter : Ctx → String → S → Result Decision × S) where
  -- What the middleware does with the limiter's answer.
  unfoldable pub act : Handler (App S) → Request → Result Decision × App S → Reply × App S
  unfolding record_decision retry_seconds
  act next req (err e, a) = next req (record_decision "error" a)
  act next req (ok d, a) =
      let (reply, a') =
        if d.allowed
        then next req (record_decision "allow" a)
        else (denial d.retry_after, record_decision "deny" a) in
      (with_header "X-RateLimit-Remaining" (itoa d.remaining) reply, a')

  abbrev ask : Ctx → App S → Result Decision × App S
  ask ctx a = let (r, s) = limiter ctx (get_client_ip ctx) a.inner in (r, record a { inner = s })

  unfoldable pub rate_limit : List String → Handler (App S) → Handler (App S)
  unfolding skips act
  rate_limit prefixes next req a =
      if skips prefixes req.path then next req a else act next req (ask req.ctx a)

unfoldable pub context_provider : {S : Type 0} → Handler S → Handler S
context_provider next req = next (record req { ctx = with_client_ip req.ctx req.remote })

abbrev pub add_request : String × String × ℕ → Option Metrics → Option Metrics
add_request labels none = none
add_request labels (some m) = some (record m { requests = labels ∷ m.requests })

abbrev pub route_label : String → String
route_label route = if route == "" then "unmatched" else route

-- `full_path` is gin's `FullPath`, the route's template. The duration is not modelled.
unfoldable pub http_metrics : {S : Type 0} → (Request → String) → Handler (App S) → Handler (App S)
http_metrics full_path next req a =
    let (reply, a') = next req a in
    (
      reply,
      record a' {
        metrics = add_request (req.method, route_label (full_path req), reply.status) a'.metrics;
      },
    )
