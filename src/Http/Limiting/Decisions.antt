-- ===== src/Http/Limiting/Decisions.antt =====
-- What the rate-limit middleware lets through.
use native.Mathlib.Decide.{dec_le}
use production_ready_url_sho.Common.{ℕ, ◌+◌, ◌*◌, ◌≤◌, ◌<◌, ◌≡◌, refl, String, false, List, arith}
use production_ready_url_sho.Failure.{GoError, Result, ok, err}
use production_ready_url_sho.Context.{Ctx, second, get_client_ip}
use production_ready_url_sho.RateLimit.{Decision, RedisRateLimiter, decide, bucket_of}
use production_ready_url_sho.RateLimit.Window.{retry_exact}
use production_ready_url_sho.Http.{Request, Handler}
use production_ready_url_sho.Http.Limiting.{App, record_decision, skips, retry_seconds, rate_limit}

module _ {S : Type 0} (limiter : Ctx → String → S → Result Decision × S)
    (prefixes : List String) where
  -- The middleware fails open: where the limiter returns an error, the request gets the very reply
  -- that the rest of the chain gives, with no header added, on the state that the limiter left.
  pub fails_open :
      (next : Handler (App S)) (req : Request) (a : App S) (e : GoError)
      → skips prefixes req.path ≡ false
      → (limiter req.ctx (get_client_ip req.ctx) a.inner).0 ≡ err e
      → rate_limit limiter prefixes next req a
        ≡ next req (
            record_decision "error"
              (record a { inner = (limiter req.ctx (get_client_ip req.ctx) a.inner).1 }))
  unfolding rate_limit
  fails_open next req a e limited h = rw limited (rw h refl)

  -- A denied request never reaches the rest of the chain: whatever that is, the reply and the state
  -- are the same, and the status is 429.
  pub denied_stops :
      (one other : Handler (App S)) (req : Request) (a : App S) (d : Decision)
      → skips prefixes req.path ≡ false
      → (limiter req.ctx (get_client_ip req.ctx) a.inner).0 ≡ ok d
      → d.allowed ≡ false
      → (rate_limit limiter prefixes one req a ≡ rate_limit limiter prefixes other req a)
        × ((rate_limit limiter prefixes one req a).0.status ≡ 429)
        × ((rate_limit limiter prefixes one req a).1.inner
            ≡ (limiter req.ctx (get_client_ip req.ctx) a.inner).1)
  unfolding rate_limit
  denied_stops one other req a d limited h denied = rw limited (rw h (rw denied (refl, refl, refl)))

retry_seconds_lem : (wait : ℕ) → (wait ≤ retry_seconds wait * second) × (1 ≤ retry_seconds wait)
unfolding retry_seconds
retry_seconds_lem wait = ground arith

-- The seconds of the `Retry-After` header are long enough: who is denied by the limiter and waits
-- that long from the moment of the answer is in a later window, and the header says at least 1.
pub retry_header_suffices :
    (r : RedisRateLimiter) (bucket until count : ℕ)
    → (decide r bucket until count).allowed ≡ false
    → (bucket
        < bucket_of r.window
            (until + retry_seconds (decide r bucket until count).retry_after * second))
      × (1 ≤ retry_seconds (decide r bucket until count).retry_after)
retry_header_suffices r bucket until count denied =
    let wait = (decide r bucket until count).retry_after in
    let (long, least) = retry_seconds_lem wait in
    let (early, _) = retry_exact r bucket until count (retry_seconds wait * second) denied in
    (
      elim (dec_le (bucket_of r.window (until + retry_seconds wait * second)) bucket) [
        | yes h ↦ absurd (omega (arith, early h))
        | no h ↦ omega arith
      ],
      least,
    )
