-- ===== src/RateLimit/Overflow.antt =====
-- The machine integers of `Allow`: no sum or product of it wraps around.
use native.Mathlib.Nat.{div-add-mod, div-le_self}
use production_ready_url_sho.Common.{ℕ, suc, ◌+◌, ◌*◌, ◌/◌, ◌≤◌, ◌≡◌, ℤ, pos, negsuc, arith}
use production_ready_url_sho.Context.{second}
use production_ready_url_sho.RateLimit.{RedisRateLimiter, window_seconds, bucket_of, decide}
use production_ready_url_sho.RateLimit.Window.{window_seconds_pos}

abbrev pub max_int64 : ℕ
max_int64 = 9_223_372_036_854_775_807

-- A value of a Go `int64`, and so of a `time.Duration`.
abbrev pub IsInt64 : ℤ → Type 0
IsInt64 (pos n) = n ≤ max_int64
IsInt64 (negsuc n) = n ≤ max_int64

window_seconds_bound : (window : ℤ) → IsInt64 window → window_seconds window * second ≤ max_int64
unfolding window_seconds
window_seconds_bound (pos ns) h = grind (arith, div-add-mod ns second)
window_seconds_bound (negsuc n) h = omega arith

bucket_seconds :
    (window : ℤ) (now : ℕ) → bucket_of window now * window_seconds window ≤ now / second
unfolding bucket_of
bucket_seconds window now = grind (arith, div-add-mod (now / second) (window_seconds window))

bucket_below : (window : ℤ) (now : ℕ) → bucket_of window now ≤ now / second
unfolding bucket_of
bucket_below window now = div-le_self (now / second) (window_seconds window)

-- A bucket starts no later than the readings that are in it.
bucket_starts : (window : ℤ) (now : ℕ) → bucket_of window now * window_seconds window * second ≤ now
unfolding bucket_of
bucket_starts window now =
    grind (arith, div-add-mod now second, div-add-mod (now / second) (window_seconds window))

-- For any window that a `time.Duration` can hold, and until the clock has counted half of the seconds
-- that an `int64` can: the seconds of a window, the bucket, the bucket after it, the product that is
-- the start of that, and the wait of a request that is denied, in nanoseconds, are all at most the
-- greatest `int64`, so that the program computes them without wrapping around.
pub fits_int64 :
    (r : RedisRateLimiter) (now until count : ℕ)
    → IsInt64 r.window
    → now ≤ until
    → 2 * (now / second) ≤ max_int64
    → let w = window_seconds r.window in
      let bucket = bucket_of r.window now in
      (w ≤ max_int64)
      × (suc bucket ≤ max_int64)
      × (suc bucket * w ≤ max_int64)
      × ((decide r bucket until count).retry_after ≤ max_int64)
unfolding decide
fits_int64 r now until count h later early =
    let bound = window_seconds_bound r.window h in
    let some_time = window_seconds_pos r.window in
    let starts = bucket_starts r.window now in
    let seconds = bucket_seconds r.window now in
    let bucket = bucket_of r.window now in
    let w = window_seconds r.window in
    let next : suc bucket * w ≡ bucket * w + w = grind arith in
    let next_ns : suc bucket * w * second ≡ bucket * w * second + w * second = grind arith in
    (
      omega (arith, bound),
      omega (arith, bucket_below r.window now, early),
      omega (arith, next, seconds, bound, early),
      ground (arith, next_ns, starts, bound, later),
    )
