-- ===== src/RateLimit/Window.antt =====
-- The windows of the limiter on the clock.
use native.Mathlib.Nat.{div-lt_iff_lt-mul, div-add-mod, mod-lt}
use production_ready_url_sho.Common.{
  ℕ, suc, ◌+◌, ◌-◌, ◌*◌, ◌/◌, ◌≤◌, ◌<◌, ◌≡◌, ◌↔◌, ℤ, pos, negsuc, arith, false,
}
use production_ready_url_sho.Context.{second}
use production_ready_url_sho.RateLimit.{window_seconds, bucket_of, RedisRateLimiter, decide}

-- A window is at least a second long, whatever is configured.
pub window_seconds_pos : (window : ℤ) → 0 < window_seconds window
unfolding window_seconds
window_seconds_pos (pos ns) = ground arith
window_seconds_pos (negsuc n) = omega arith

-- Where the window after a bucket starts.
abbrev pub next_start : ℤ → ℕ → ℕ
next_start window bucket = suc bucket * window_seconds window * second

quotient_bound : (n w b : ℕ) → 0 < w → (n / w ≤ b) ↔ (n < suc b * w)
quotient_bound n w b h = grind (arith, div-add-mod n w, mod-lt n h)

-- A time lies in a bucket or an earlier one exactly if it is before the start of the next.
pub bucket_boundary :
    (window : ℤ) (bucket now : ℕ)
    → (bucket_of window now ≤ bucket) ↔ (now < next_start window bucket)
unfolding bucket_of
bucket_boundary window bucket now =
    let w = window_seconds window in
    let (below, above) = quotient_bound (now / second) w bucket (window_seconds_pos window) in
    let (down, up) = div-lt_iff_lt-mul {k = second} {x = now} {y = suc bucket * w} (omega arith) in
    (λ h. down (below h), λ h. above (up h))

-- The wait that a denied request is told is exact: after any wait from the moment of the answer, the
-- clock is still in the bucket of the request, or in an earlier one, exactly if the wait is shorter.
pub retry_exact :
    (r : RedisRateLimiter) (bucket until count wait : ℕ)
    → (decide r bucket until count).allowed ≡ false
    → (bucket_of r.window (until + wait) ≤ bucket)
      ↔ (wait < (decide r bucket until count).retry_after)
unfolding decide
retry_exact r bucket until count wait denied =
    let (to, from) = bucket_boundary r.window bucket (until + wait) in
    let w : (decide r bucket until count).retry_after ≡ next_start r.window bucket - until =
      ground arith in
    rw w (λ h. omega (arith, to h), λ h. from (omega arith))
