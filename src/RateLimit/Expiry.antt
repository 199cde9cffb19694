-- ===== src/RateLimit/Expiry.antt =====
-- Which requests set a counter's time to live.
use production_ready_url_sho.Common.{
  ℕ, suc, ◌≡◌, ◌∙◌, refl, ap, String, Bool, false, some, List, [], ◌∷◌, All, eqb, arith,
}
use production_ready_url_sho.Failure.{GoError, Result, ok, err}
use production_ready_url_sho.Context.{Ctx}
use production_ready_url_sho.RateLimit.{
  Redis, RedisRateLimiter, bucket_of, redis_key, counted, allow, limited_ctx,
}
use production_ready_url_sho.RateLimit.Quota.{RedisLaws, Reading, Step, allow-Step, serve_all}

-- `INCR` leaves the time to live of a key as it is, as Redis documents.
pub record TtlLaws {S : Type 0} (redis : Redis S) : Type 0 where
  pub timed : S → String → Bool
  pub incr_timed : (ctx : Ctx) (k j : String) (s : S) → timed (redis.incr ctx k s).1 j ≡ timed s j

module _ {S : Type 0} (redis : Redis S) (laws : RedisLaws redis) (ttl : TtlLaws redis)
    (r : RedisRateLimiter) where
  -- Past the first request of a counter, no `EXPIRE` is sent.
  counted-timed :
      (ctx : Ctx) (k j : String) (bucket until n : ℕ) (x : Result ℕ × S)
      → x.0 ≡ ok (suc (suc n))
      → ttl.timed (counted redis r ctx k bucket until x).1 j ≡ ttl.timed x.1 j
  unfolding counted
  counted-timed ctx k j bucket until n (res, s) e =
      let later : eqb (suc (suc n)) 1 ≡ false = ground arith in rw e (rw later refl)

  allow-timed :
      (x : Reading) (key j : String) (n : ℕ) (s : S)
      → laws.value s (redis_key key (bucket_of r.window x.now)) ≡ suc n
      → laws.IsUp s
      → ttl.timed (allow redis r x.ctx x.now x.until key s).1 j ≡ ttl.timed s j
  unfolding allow
  allow-timed x key j n s v up =
      let ctx' = limited_ctx x.ctx r.op_timeout in
      let bucket = bucket_of r.window x.now in
      let k = redis_key key bucket in
      counted-timed ctx' k j bucket x.until n (redis.incr ctx' k s)
        (laws.incr_result ctx' k s up ∙ ap (λ m. ok (suc m)) v)
      ∙ ttl.incr_timed ctx' k j s

  later-timed :
      (key : String) (bucket n : ℕ) (xs : List Reading) (s : S)
      → All (λ x. bucket_of r.window x.now ≡ bucket) xs
      → laws.value s (redis_key key bucket) ≡ suc n
      → laws.IsUp s
      → ttl.timed (serve_all redis laws r key xs s).1 (redis_key key bucket)
        ≡ ttl.timed s (redis_key key bucket)
  unfolding serve_all
  later-timed key bucket n [] s h v up = refl
  later-timed key bucket n (x ∷ xs) s (here, h) v up =
      let step : Step redis laws r key bucket (suc n) (allow redis r x.ctx x.now x.until key s) =
        rw here at (
          allow-Step redis laws r x key (suc n) s (λ e. absurd (omega (arith, e))) (rw here v)
            up) in
      later-timed key bucket (suc n) xs (allow redis r x.ctx x.now x.until key s).1 h step.counter
        step.up
      ∙ allow-timed x key (redis_key key bucket) n s (rw here v) up

  first_fails :
      (ctx : Ctx) (k : String) (bucket until : ℕ) (e : GoError) (s : S) (x : Result ℕ × S)
      → x.0 ≡ ok 1
      → redis.expire ctx k r.window x.1 ≡ (some e, s)
      → counted redis r ctx k bucket until x ≡ (err e, s)
  unfolding counted
  first_fails ctx k bucket until e s (res, t) one failed = rw one (rw failed refl)

  -- The first request of a window increments the counter, and its `EXPIRE` fails without effect: the
  -- request gets the error, and whatever further requests of that client in that window follow, with
  -- Redis up again, none of them sets a time to live: the key stays in Redis without one.
  pub lost_expiry :
      (x : Reading) (key : String) (bucket : ℕ) (xs : List Reading) (s s' : S) (e : GoError)
      → bucket_of r.window x.now ≡ bucket
      → (redis.incr (limited_ctx x.ctx r.op_timeout) (redis_key key bucket) s).0 ≡ ok 1
      → redis.expire
          (limited_ctx x.ctx r.op_timeout)
          (redis_key key bucket)
          r.window
          (redis.incr (limited_ctx x.ctx r.op_timeout) (redis_key key bucket) s).1
        ≡ (some e, s')
      → laws.value s' (redis_key key bucket) ≡ 1
      → ttl.timed s' (redis_key key bucket) ≡ false
      → laws.IsUp s'
      → All (λ y. bucket_of r.window y.now ≡ bucket) xs
      → (allow redis r x.ctx x.now x.until key s ≡ (err e, s'))
        × (ttl.timed (serve_all redis laws r key xs s').1 (redis_key key bucket) ≡ false)
  unfolding allow
  lost_expiry x key bucket xs s s' e here one failed v untimed up h =
      let ctx' = limited_ctx x.ctx r.op_timeout in
      let k = redis_key key bucket in
      (
        rw here (first_fails ctx' k bucket x.until e s' (redis.incr ctx' k s) one failed),
        later-timed key bucket 0 xs s' h v up ∙ untimed,
      )
