-- ===== src/Http/Engine/Fleet.antt =====
-- Servers that share one Redis: each has its own metrics, and any of them may get a request.
use production_ready_url_sho.Common.{
  ℕ, suc, ◌+◌, ◌≡◌, ◌≢◌, ◌∙◌, refl, sym, min, String, false, Option, some, List, [], ◌∷◌, All, eqb,
  arith, Bool-cases, inl, inr, if◌then◌else◌, ◌==◌, eq_iff,
}
use production_ready_url_sho.Failure.{Result, ok, err}
use production_ready_url_sho.Context.{Ctx, get_client_ip, with_client_ip}
use production_ready_url_sho.RateLimit.{
  Redis, RedisRateLimiter, Decision, bucket_of, redis_key, allow,
}
use production_ready_url_sho.RateLimit.Quota.{IsPositive, RedisLaws, quota, allow-Step}
use production_ready_url_sho.RateLimit.Clients.{clients_independent}
use production_ready_url_sho.Http.{Reply, Request}
use production_ready_url_sho.Http.Limiting.{
  App, Metrics, skips, act, record_decision, rate_limit, context_provider, http_metrics,
}
use production_ready_url_sho.Http.Engine.{
  RouterDeps, routes, rate_limit_skip_prefixes, handler_of, on_inner, dispatch, setup_router,
}
use production_ready_url_sho.Http.Engine.Throttling.{
  Arrival, served, AllUnlimiting, engine_at, engine_at-Effect, handler_of-Unlimiting,
  routes-Unlimiting, client_ip,
}

pub record Fleet (S : Type 0) : Type 0 where
  pub metrics : ℕ → Option Metrics
  pub shared : S

-- A request, at one of the servers.
pub record Visit : Type 0 where
  pub server : ℕ
  pub arrival : Arrival

abbrev pub address : Visit → String
address x = x.arrival.request.remote

-- How many of some requests are from an address.
abbrev pub visits_of : String → List Visit → ℕ
visits_of ip [] = 0
visits_of ip (x ∷ xs) = (if address x == ip then 1 else 0) + visits_of ip xs

module _ {S : Type 0} (redis : Redis S) (laws : RedisLaws redis) (r : RedisRateLimiter)
    (full_path : Request → String) (d : RouterDeps S) where
  abbrev app_at : ℕ → Fleet S → App S
  app_at i f = record { metrics = f.metrics i; inner = f.shared }

  -- One server handles a request.
  unfoldable pub visit : Visit → Fleet S → Reply × Fleet S
  visit x f =
      let (reply, a) =
        engine_at redis laws r full_path d x.arrival x.arrival.request (app_at x.server f) in
      (
        reply,
        record {
          metrics = λ j. if eqb j x.server then a.metrics else f.metrics j;
          shared = a.inner;
        },
      )

  -- Requests one after the other, and how many of those from an address are served.
  unfoldable pub serve_fleet : String → List Visit → Fleet S → ℕ × Fleet S
  unfolding visit
  serve_fleet ip [] f = (0, f)
  serve_fleet ip (x ∷ xs) f =
      let (reply, f') = visit x f in
      let (n, f'') = serve_fleet ip xs f' in
      ((if address x == ip then served reply else 0) + n, f'')

  -- A request that the limiters look at, in one window.
  pub record Looked (bucket : ℕ) (x : Visit) : Type 0 where
    pub looked_at : skips rate_limit_skip_prefixes x.arrival.request.path ≡ false
    pub window : bucket_of r.window x.arrival.now ≡ bucket

  -- Another client's request leaves a counter alone.
  record Leaves (k : String) (before : S) (a : App S) : Type 0 where
    counter : laws.value a.inner k ≡ laws.value before k
    up : laws.IsUp a.inner

  handler-Leaves :
      (limiter : Ctx → String → S → Result Decision × S) (req : Request) (a : App S)
      → AllUnlimiting redis laws r full_path d
      → let d' = record d { rate_limiter = some limiter } in
        let (reply, s) = handler_of (routes d') req.method (full_path req) req a.inner in
        (reply.status ≢ 429)
        × ((k : String) → laws.value s k ≡ laws.value a.inner k)
        × (laws.IsUp a.inner → laws.IsUp s)
  handler-Leaves limiter req a fine =
      handler_of-Unlimiting redis laws r full_path d
        (routes (record d { rate_limiter = some limiter })) req.method (full_path req)
        (routes-Unlimiting redis laws r full_path d (some limiter) fine) req a.inner

  act-Leaves :
      (k : String) (limiter : Ctx → String → S → Result Decision × S) (req : Request)
      (res : Result Decision) (a : App S)
      → AllUnlimiting redis laws r full_path d
      → laws.IsUp a.inner
      → Leaves k a.inner
          (act limiter
            (dispatch full_path (record d { rate_limiter = some limiter }))
            req
            (res, a)).1
  unfolding act dispatch on_inner record_decision
  act-Leaves k limiter req (err e) a fine up =
      let (kept, counters, still) = handler-Leaves limiter req a fine in
      record { counter = counters k; up = still up }
  act-Leaves k limiter req (ok dec) a fine up =
      let (kept, counters, still) = handler-Leaves limiter req a fine in
      elim (Bool-cases dec.allowed) [
        | inl allowed ↦ rw allowed (record { counter = counters k; up = still up })
        | inr denied ↦ rw denied (record { counter = refl; up = up })
      ]

  visit-other :
      (ip : String) (bucket : ℕ) (x : Visit) (f : Fleet S)
      → IsPositive r.window
      → AllUnlimiting redis laws r full_path d
      → Looked bucket x
      → address x ≢ ip
      → laws.IsUp f.shared
      → Leaves
          (redis_key ip bucket)
          f.shared
          (engine_at redis laws r full_path d x.arrival x.arrival.request (app_at x.server f)).1
  unfolding setup_router http_metrics context_provider rate_limit
  visit-other ip bucket x f positive fine h other up =
      let v = x.arrival in
      let a = app_at x.server f in
      let limiter = λ (ctx : Ctx) (key : String) (s : S). allow redis r ctx v.now v.until key s in
      let ctx = with_client_ip v.request.ctx v.request.remote in
      let req = record v.request { ctx = ctx } in
      let who = get_client_ip ctx in
      let named : who ≡ address x =
        client_ip redis laws r full_path d v.request.ctx v.request.remote in
      let (res, s) = limiter ctx who a.inner in
      let asked : laws.value s (redis_key ip bucket) ≡ laws.value f.shared (redis_key ip bucket) =
        rw h.window at (
          clients_independent redis laws r ctx v.now v.until who ip f.shared
            (λ e. other (sym named ∙ sym e))) in
      let still : laws.IsUp s =
        (allow-Step redis laws r (record { ctx = ctx; now = v.now; until = v.until }) who
          (laws.value f.shared (redis_key who (bucket_of r.window v.now))) f.shared (λ e. positive)
          refl up).up in
      let effect =
        act-Leaves (redis_key ip bucket) limiter req res (record a { inner = s }) fine still in
      rw h.looked_at (record { counter = effect.counter ∙ asked; up = effect.up })

  fleet_from :
      (ip : String) (bucket n : ℕ) (xs : List Visit) (f : Fleet S)
      → IsPositive r.window
      → AllUnlimiting redis laws r full_path d
      → All (Looked bucket) xs
      → laws.value f.shared (redis_key ip bucket) ≡ n
      → laws.IsUp f.shared
      → (serve_fleet ip xs f).0 + min (quota r.limit) n ≡ min (quota r.limit) (n + visits_of ip xs)
  unfolding serve_fleet visit
  fleet_from ip bucket n [] f positive fine h v up = omega arith
  fleet_from ip bucket n (x ∷ xs) f positive fine (l, h) v up =
      elim (Bool-cases (address x == ip)) [
        | inl mine ↦
            let effect =
              engine_at-Effect redis laws r full_path d ip bucket n x.arrival (app_at x.server f)
                positive fine
                (record {
                  address = (eq_iff (address x) ip).0 mine;
                  looked_at = l.looked_at;
                  window = l.window;
                })
                v up in
            let rest =
              fleet_from ip bucket (suc n) xs (visit x f).1 positive fine h effect.counter
                effect.up in
            rw mine (ground (arith, effect.answer, rest))
        | inr other ↦
            let effect =
              visit-other ip bucket x f positive fine l
                (λ e. cc ((eq_iff (address x) ip).1 e, other)) up in
            let rest =
              fleet_from ip bucket n xs (visit x f).1 positive fine h (effect.counter ∙ v)
                effect.up in
            rw other (omega (arith, rest))
      ]

  -- Any number of servers share the quotas of a positive window, whatever routes the requests are for and whichever server
  -- gets each: of any requests that the limiters look at, from any addresses, whose clock readings
  -- fall into one window, exactly as many of those from an address whose counter starts fresh get a
  -- reply other than 429 as the limit says, or all of them if they are fewer; other addresses make
  -- no difference. Redis is up, the handlers keep off the limiter's counters, and none answers 429
  -- itself.
  pub fleet_quota :
      (ip : String) (bucket : ℕ) (xs : List Visit) (f : Fleet S)
      → IsPositive r.window
      → AllUnlimiting redis laws r full_path d
      → All (Looked bucket) xs
      → laws.value f.shared (redis_key ip bucket) ≡ 0
      → laws.IsUp f.shared
      → (serve_fleet ip xs f).0 ≡ min (quota r.limit) (visits_of ip xs)
  fleet_quota ip bucket xs f positive fine h v up =
      omega (arith, fleet_from ip bucket 0 xs f positive fine h v up)
