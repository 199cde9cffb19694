-- ===== src/Http/Engine/Counting.antt =====
-- What the engine's metrics count, and which requests its limiter sees.
use production_ready_url_sho.Common.{
  ℕ, String, ◌≡◌, ◌∙◌, refl, ap, true, Option, none, some, List, ◌∷◌, Bool-cases, inl, inr,
}
use production_ready_url_sho.Failure.{Result, ok, err}
use production_ready_url_sho.Context.{Ctx, get_client_ip, with_client_ip}
use production_ready_url_sho.RateLimit.{Decision}
use production_ready_url_sho.Http.{Reply, Request, Handler}
use production_ready_url_sho.Http.Limiting.{
  App, Metrics, skips, rate_limit, context_provider, http_metrics, route_label, add_request, act,
  record_decision,
}
use production_ready_url_sho.Http.Engine.{
  RouterDeps, rate_limit_skip_prefixes, dispatch, setup_router, serve_http, unless_redirected,
  limited, on_inner,
}

-- The requests that were counted.
abbrev pub counted_requests : Option Metrics → Option (List (String × String × ℕ))
counted_requests none = none
counted_requests (some m) = some m.requests

-- The counted requests after one that gin redirected by itself, or did not.
abbrev pub with_count :
    Option Reply → String × String × ℕ → List (String × String × ℕ) → List (String × String × ℕ)
with_count none labels counted = labels ∷ counted
with_count (some reply) labels counted = counted

add_decision-requests :
    {S : Type 0} (d : String) (metrics : Option Metrics) (inner : S)
    → counted_requests (record_decision d (record { metrics = metrics; inner = inner })).metrics
      ≡ counted_requests metrics
unfolding record_decision
add_decision-requests d none inner = refl
add_decision-requests d (some m) inner = refl

add_request-requests :
    (labels : String × String × ℕ) (metrics : Option Metrics) (counted : List (String × String × ℕ))
    → counted_requests metrics ≡ some counted
    → counted_requests (add_request labels metrics) ≡ some (labels ∷ counted)
add_request-requests labels none counted h = cc
add_request-requests labels (some m) counted h = cc

pub limited-skipped :
    {S : Type 0} (next : Handler (App S))
    (rate_limiter : Option (Ctx → String → S → Result Decision × S)) (req : Request) (a : App S)
    → skips rate_limit_skip_prefixes req.path ≡ true
    → limited rate_limiter next req a ≡ next req a
unfolding rate_limit
limited-skipped next none req a skipped = refl
limited-skipped next (some limiter) req a skipped = rw skipped refl

module _ {S : Type 0} (full_path : Request → String) (d : RouterDeps S) where
  -- The chain below the metrics leaves the requests that were counted alone.
  act-requests :
      (limiter : Ctx → String → S → Result Decision × S) (req : Request) (r : Result Decision)
      (a : App S)
      → counted_requests (act limiter (dispatch full_path d) req (r, a)).1.metrics
        ≡ counted_requests a.metrics
  unfolding act dispatch on_inner
  act-requests limiter req (err e) a = add_decision-requests "error" a.metrics a.inner
  act-requests limiter req (ok x) a = elim (Bool-cases x.allowed) [
    | inl allowed ↦ rw allowed (add_decision-requests "allow" a.metrics a.inner)
    | inr denied ↦ rw denied (add_decision-requests "deny" a.metrics a.inner)
  ]

  limited-requests :
      (rate_limiter : Option (Ctx → String → S → Result Decision × S)) (req : Request) (a : App S)
      → counted_requests (limited rate_limiter (dispatch full_path d) req a).1.metrics
        ≡ counted_requests a.metrics
  unfolding rate_limit dispatch on_inner
  limited-requests none req a = refl
  limited-requests (some limiter) req a =
      elim (Bool-cases (skips rate_limit_skip_prefixes req.path)) [
        | inl skipped ↦ rw skipped refl
        | inr asked ↦
            let (r, s) = limiter req.ctx (get_client_ip req.ctx) a.inner in
            rw asked (act-requests limiter req r (record a { inner = s }))
      ]

  chain-requests :
      (req : Request) (a : App S) (m : Metrics)
      → a.metrics ≡ some m
      → let (reply, a') = setup_router full_path d req a in
        counted_requests a'.metrics
        ≡ some ((req.method, route_label (full_path req), reply.status) ∷ m.requests)
  unfolding setup_router http_metrics context_provider
  chain-requests req a m wired =
      let req' = record req { ctx = with_client_ip req.ctx req.remote } in
      let below = limited-requests d.rate_limiter req' a ∙ ap counted_requests wired in
      add_request-requests _ _ m.requests below

  unless_redirected-requests :
      (own : Option Reply) (req : Request) (a : App S) (m : Metrics)
      → a.metrics ≡ some m
      → let (reply, a') = unless_redirected own (setup_router full_path d) req a in
        counted_requests a'.metrics
        ≡ some (with_count own (req.method, route_label (full_path req), reply.status) m.requests)
  unless_redirected-requests none req a m wired = chain-requests req a m wired
  unless_redirected-requests (some reply) req a m wired = ap counted_requests wired

  -- Where the metrics are wired, a request is counted once, with its method, its route and the status
  -- of the reply that the client gets, a limiter's 429 and an unknown route's 404 included; but one
  -- that gin redirects by itself, for the slash at the end of its path, is not counted at all.
  pub counted_once :
      (redirects : Request → Option Reply) (req : Request) (a : App S) (m : Metrics)
      → a.metrics ≡ some m
      → let (reply, a') = serve_http redirects full_path d req a in
        counted_requests a'.metrics
        ≡ some (
            with_count
              (redirects req)
              (req.method, route_label (full_path req), reply.status)
              m.requests)
  unfolding serve_http
  counted_once redirects req a m wired = unless_redirected-requests (redirects req) req a m wired

  -- Paths under the skipped prefixes, the health probes and the API's pages, are served alike with
  -- and without a limiter: they use up no quota, and get no header from it.
  pub skipped_unlimited :
      (req : Request) (a : App S)
      → skips rate_limit_skip_prefixes req.path ≡ true
      → setup_router full_path d req a
        ≡ setup_router full_path (record d { rate_limiter = none }) req a
  unfolding setup_router http_metrics context_provider dispatch
  skipped_unlimited req a skipped =
      let req' = record req { ctx = with_client_ip req.ctx req.remote } in
      let same = limited-skipped (dispatch full_path d) d.rate_limiter req' a skipped in
      ap
        (λ (x : Reply × App S). (
          x.0,
          record x.1 {
            metrics = add_request (req.method, route_label (full_path req), x.0.status) x.1.metrics;
          },
        ))
        same
