-- ===== src/RateLimit.antt =====
-- internal/service/ratelimit_service.go: the fixed-window limiter over Redis. Redis is the parameter
-- `Redis`: the two commands that the limiter sends. Times are nanoseconds since the Unix epoch.
pub mod Window
pub mod Quota
pub mod Clients
pub mod Expiry
pub mod Span
pub mod Overflow
use Prim.Native.String.{◌++◌}
use production_ready_url_sho.Common.{
  ℕ, zero, suc, ◌+◌, ◌-◌, ◌*◌, ◌/◌, String, Bool, true, false, Option, none, some, ltb, leb, eqb,
  if◌then◌else◌, ℤ, pos, negsuc,
}
use production_ready_url_sho.Failure.{GoError, Result, ok, err}
use production_ready_url_sho.Context.{Ctx, second, with_timeout}
use production_ready_url_sho.Keygen.Decimal.{itoa}

pub record Redis (S : Type 0) : Type 0 where
  pub incr : Ctx → String → S → Result ℕ × S
  pub expire : Ctx → String → ℤ → S → Option GoError × S

pub record RedisRateLimiter : Type 0 where
  pub limit : ℤ
  pub window : ℤ
  pub op_timeout : ℤ

pub record Decision : Type 0 where
  pub allowed : Bool
  pub remaining : ℕ
  pub retry_after : ℕ

-- `int64(window / time.Second)`, at least 1
unfoldable pub window_seconds : ℤ → ℕ
window_seconds (pos ns) = let s = ns / second in if leb s 0 then 1 else s
window_seconds (negsuc n) = 1

-- `now.Unix() / windowSec`
unfoldable pub bucket_of : ℤ → ℕ → ℕ
unfolding window_seconds
bucket_of window now = now / second / window_seconds window

unfoldable pub redis_key : String → ℕ → String
redis_key key bucket = "rl:" ++ (key ++ (":" ++ itoa bucket))

abbrev pub limited_ctx : Ctx → ℤ → Ctx
limited_ctx ctx (pos zero) = ctx
limited_ctx ctx (pos (suc n)) = with_timeout ctx (suc n)
limited_ctx ctx (negsuc n) = ctx

-- `count > int64(limit)`
unfoldable pub exceeds : ℕ → ℤ → Bool
exceeds count (pos limit) = ltb limit count
exceeds count (negsuc n) = true

-- `limit - int(count)`, where the count does not exceed the limit
abbrev pub left_over : ℤ → ℕ → ℕ
left_over (pos limit) count = limit - count
left_over (negsuc n) count = 0

-- The decision for the request that made the counter `count`. `until` is read by `time.Until`.
unfoldable pub decide : RedisRateLimiter → (bucket until count : ℕ) → Decision
unfolding exceeds window_seconds
decide r bucket until count =
    if exceeds count r.limit
    then record {
      allowed = false;
      remaining = 0;
      retry_after = suc bucket * window_seconds r.window * second - until;
    }
    else record { allowed = true; remaining = left_over r.limit count; retry_after = 0 }

-- The answer to `EXPIRE`.
abbrev pub after_expire : Decision → Option GoError → Result Decision
after_expire d none = ok d
after_expire d (some e) = err e

module _ {S : Type 0} (redis : Redis S) (r : RedisRateLimiter) where
  -- Only the request that created the key sets its time to live.
  unfoldable pub counted : Ctx → String → (bucket until : ℕ) → Result ℕ × S → Result Decision × S
  unfolding decide
  counted ctx key bucket until (err e, s) = (err e, s)
  counted ctx key bucket until (ok count, s) =
      if eqb count 1
      then (let (e, s') = redis.expire ctx key r.window s in
          (after_expire (decide r bucket until count) e, s'))
      else (ok (decide r bucket until count), s)

  unfoldable pub allow : Ctx → (now until : ℕ) → String → S → Result Decision × S
  unfolding bucket_of counted
  allow ctx now until key s =
      let ctx' = limited_ctx ctx r.op_timeout in
      let bucket = bucket_of r.window now in
      counted ctx' (redis_key key bucket) bucket until (redis.incr ctx' (redis_key key bucket) s)
