-- ===== src/Http/Engine/Throttling.antt =====
-- The limiter in the engine: what the clients of a window get.
use production_ready_url_sho.Common.{
  ℕ, suc, ◌+◌, ◌≡◌, ◌≢◌, ◌∙◌, refl, min, String, false, Option, some, List, [], ◌∷◌, length, All,
  eqb, ltb, arith, Bool-cases, inl, inr, if◌then◌else◌, ◌==◌, ◌&&◌,
}
use production_ready_url_sho.Failure.{Result, ok, err}
use production_ready_url_sho.Context.{Ctx, get_client_ip, with_client_ip}
use production_ready_url_sho.RateLimit.{
  Redis, RedisRateLimiter, Decision, bucket_of, redis_key, allow,
}
use production_ready_url_sho.RateLimit.Quota.{
  IsPositive, RedisLaws, quota, passed, Step, allow-Step,
}
use production_ready_url_sho.Http.{Reply, Request, Handler}
use production_ready_url_sho.Http.Limiting.{
  App, skips, act, record_decision, rate_limit, context_provider, http_metrics,
}
use production_ready_url_sho.Http.Engine.{
  RouterDeps, Route, routes, handler_of, rate_limit_skip_prefixes, on_inner, dispatch, setup_router,
}

-- A request, and the limiter's two readings of the clock.
pub record Arrival : Type 0 where
  pub request : Request
  pub now : ℕ
  pub until : ℕ

-- Whether a client got more than "too many requests".
abbrev pub served : Reply → ℕ
served r = if eqb r.status 429 then 0 else 1

module _ {S : Type 0} (redis : Redis S) (laws : RedisLaws redis) (r : RedisRateLimiter)
    (full_path : Request → String) (d : RouterDeps S) where
  -- A handler that keeps off the limiter's counters and does not answer 429 itself.
  abbrev pub Unlimiting : Handler S → Type 0
  Unlimiting h =
      (req : Request) (s : S)
      → ((h req s).0.status ≢ 429)
        × ((k : String) → laws.value (h req s).1 k ≡ laws.value s k)
        × (laws.IsUp s → laws.IsUp (h req s).1)

  pub record AllUnlimiting : Type 0 where
    pub liveness : Unlimiting d.liveness
    pub readiness : Unlimiting d.readiness
    pub create : Unlimiting d.create
    pub redirect : Unlimiting d.redirect
    pub swagger : Unlimiting d.swagger

  -- The engine with the limiter of `NewRedisRateLimiter`, at one arrival.
  abbrev pub engine_at : Arrival → Handler (App S)
  engine_at x =
      setup_router full_path
        (record d { rate_limiter = some (λ ctx key s. allow redis r ctx x.now x.until key s) })

  pub handler_of-Unlimiting :
      (rs : List (Route S)) (method template : String)
      → All (λ (rt : Route S). Unlimiting rt.handler) rs
      → Unlimiting (handler_of rs method template)
  unfolding handler_of
  handler_of-Unlimiting [] method template h req s =
      ((λ e. absurd (omega (arith, e))), (λ k. refl), (λ up. up))
  handler_of-Unlimiting (rt ∷ rs) method template (one, rest) req s =
      elim (Bool-cases (rt.method == method && rt.template == template)) [
        | inl this ↦ rw this (one req s)
        | inr other ↦ rw other (handler_of-Unlimiting rs method template rest req s)
      ]

  -- What one request does.
  pub record Effect (key : String) (bucket n : ℕ) (x : Reply × App S) : Type 0 where
    pub answer : served x.0 ≡ (if ltb n (quota r.limit) then 1 else 0)
    pub counter : laws.value x.1.inner (redis_key key bucket) ≡ suc n
    pub up : laws.IsUp x.1.inner

  served-one : (reply : Reply) → reply.status ≢ 429 → served reply ≡ 1
  served-one reply h = ground arith

  pub routes-Unlimiting :
      (limiter : Option (Ctx → String → S → Result Decision × S))
      → AllUnlimiting
      → All (λ (rt : Route S). Unlimiting rt.handler) (routes (record d { rate_limiter = limiter }))
  routes-Unlimiting limiter fine =
      (fine.liveness, (fine.readiness, (fine.create, (fine.redirect, (fine.swagger, tt)))))

  act-Effect :
      (key : String) (bucket n : ℕ) (limiter : Ctx → String → S → Result Decision × S)
      (req : Request) (res : Result Decision) (a : App S)
      → AllUnlimiting
      → Step redis laws r key bucket n (res, a.inner)
      → Effect key bucket n
          (act limiter (dispatch full_path (record d { rate_limiter = some limiter })) req (res, a))
  unfolding act dispatch on_inner record_decision
  act-Effect key bucket n limiter req (err e) a fine step = cc (step.decided.1)
  act-Effect key bucket n limiter req (ok dec) a fine step =
      let d' = record d { rate_limiter = some limiter } in
      let (kept, counters, up) =
        handler_of-Unlimiting (routes d') req.method (full_path req)
          (routes-Unlimiting (some limiter) fine) req a.inner in
      let answer : passed (ok dec) ≡ (if ltb n (quota r.limit) then 1 else 0) = step.answer in
      elim (Bool-cases dec.allowed) [
        | inl allowed ↦
            let one =
              served-one (handler_of (routes d') req.method (full_path req) req a.inner).0 kept in
            rw allowed (record {
              answer = one ∙ rw allowed at answer;
              counter = counters (redis_key key bucket) ∙ step.counter;
              up = up step.up;
            })
        | inr denied ↦
            rw denied
              (record { answer = rw denied at answer; counter = step.counter; up = step.up })
      ]

  -- A request that the limiter looks at, from one address and in one window.
  pub record Counts (ip : String) (bucket : ℕ) (x : Arrival) : Type 0 where
    pub address : x.request.remote ≡ ip
    pub looked_at : skips rate_limit_skip_prefixes x.request.path ≡ false
    pub window : bucket_of r.window x.now ≡ bucket

  pub client_ip : (ctx : Ctx) (ip : String) → get_client_ip (with_client_ip ctx ip) ≡ ip
  unfolding get_client_ip with_client_ip
  client_ip ctx ip = refl

  pub engine_at-Effect :
      (ip : String) (bucket n : ℕ) (x : Arrival) (a : App S)
      → IsPositive r.window
      → AllUnlimiting
      → Counts ip bucket x
      → laws.value a.inner (redis_key ip bucket) ≡ n
      → laws.IsUp a.inner
      → Effect ip bucket n (engine_at x x.request a)
  unfolding setup_router http_metrics context_provider rate_limit
  engine_at-Effect ip bucket n x a positive fine c v up =
      let limiter = λ (ctx : Ctx) (key : String) (s : S). allow redis r ctx x.now x.until key s in
      let ctx = with_client_ip x.request.ctx x.request.remote in
      let req = record x.request { ctx = ctx } in
      let named : get_client_ip ctx ≡ ip = client_ip x.request.ctx x.request.remote ∙ c.address in
      let step : Step redis laws r ip bucket n (limiter ctx ip a.inner) = rw c.window at (
        allow-Step redis laws r (record { ctx = ctx; now = x.now; until = x.until }) ip n a.inner
          (λ e. positive) (rw c.window v) up) in
      let (res, s) = limiter ctx ip a.inner in
      let effect = act-Effect ip bucket n limiter req res (record a { inner = s }) fine step in
      rw (c.looked_at, named)
        (record { answer = effect.answer; counter = effect.counter; up = effect.up })

  -- Requests one after the other, and how many are served.
  unfoldable pub serve_all : List Arrival → App S → ℕ × App S
  serve_all [] a = (0, a)
  serve_all (x ∷ xs) a =
      let (reply, a') = engine_at x x.request a in
      let (n, a'') = serve_all xs a' in (served reply + n, a'')

  engine_quota_from :
      (ip : String) (bucket n : ℕ) (xs : List Arrival) (a : App S)
      → IsPositive r.window
      → AllUnlimiting
      → All (Counts ip bucket) xs
      → laws.value a.inner (redis_key ip bucket) ≡ n
      → laws.IsUp a.inner
      → (serve_all xs a).0 + min (quota r.limit) n ≡ min (quota r.limit) (n + length xs)
  unfolding serve_all
  engine_quota_from ip bucket n [] a positive fine h v up = omega arith
  engine_quota_from ip bucket n (x ∷ xs) a positive fine (c, h) v up =
      let effect = engine_at-Effect ip bucket n x a positive fine c v up in
      let rest =
        engine_quota_from ip bucket (suc n) xs (engine_at x x.request a).1 positive fine h
          effect.counter effect.up in
      ground (arith, effect.answer, rest)

  -- The whole engine keeps the quota of a positive window, whatever routes the requests are for: of any requests from
  -- one remote address that the limiter looks at, whose clock readings fall into one window and whose
  -- counter starts fresh, exactly as many get a reply other than 429 as the limit says, or all of
  -- them if they are fewer. Redis is up, the handlers keep off the limiter's counters, and none
  -- answers 429 itself.
  pub engine_quota :
      (ip : String) (bucket : ℕ) (xs : List Arrival) (a : App S)
      → IsPositive r.window
      → AllUnlimiting
      → All (Counts ip bucket) xs
      → laws.value a.inner (redis_key ip bucket) ≡ 0
      → laws.IsUp a.inner
      → (serve_all xs a).0 ≡ min (quota r.limit) (length xs)
  engine_quota ip bucket xs a positive fine h v up =
      omega (arith, engine_quota_from ip bucket 0 xs a positive fine h v up)
