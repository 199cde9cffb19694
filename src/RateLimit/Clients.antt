-- ===== src/RateLimit/Clients.antt =====
-- One client's requests do not use up another's quota.
use text.Mathlib.TextLemmas.{append_cancel_left, append_cancel_right}
use Prim.Native.String.{◌++◌}
use production_ready_url_sho.Common.{ℕ, ◌≡◌, ◌≢◌, ◌∙◌, refl, String, eqb, Bool-cases, inl, inr}
use production_ready_url_sho.Failure.{Result, ok, err}
use production_ready_url_sho.Context.{Ctx}
use production_ready_url_sho.Keygen.Decimal.{itoa}
use production_ready_url_sho.RateLimit.{
  Redis, RedisRateLimiter, bucket_of, redis_key, counted, allow, limited_ctx,
}
use production_ready_url_sho.RateLimit.Quota.{RedisLaws}

redis_key-injective : (j k : String) (bucket : ℕ) → redis_key j bucket ≡ redis_key k bucket → j ≡ k
unfolding redis_key
redis_key-injective j k bucket e =
    append_cancel_right j k (":" ++ itoa bucket) (append_cancel_left "rl:" _ _ e)

module _ {S : Type 0} (redis : Redis S) (laws : RedisLaws redis) (r : RedisRateLimiter) where
  pub counted-value :
      (ctx : Ctx) (k j : String) (bucket until : ℕ) (x : Result ℕ × S)
      → j ≢ k
      → laws.value (counted redis r ctx k bucket until x).1 j ≡ laws.value x.1 j
  unfolding counted
  counted-value ctx k j bucket until (err e, s) apart = refl
  counted-value ctx k j bucket until (ok count, s) apart = elim (Bool-cases (eqb count 1)) [
    | inl first ↦ rw first (laws.expire_other ctx k j r.window s apart)
    | inr later ↦ rw later refl
  ]

  -- Whether Redis is up or not, a request of one client leaves every other client's counter of the
  -- same window as it was.
  pub clients_independent :
      (ctx : Ctx) (now until : ℕ) (one other : String) (s : S)
      → other ≢ one
      → let k = redis_key other (bucket_of r.window now) in
        laws.value (allow redis r ctx now until one s).1 k ≡ laws.value s k
  unfolding allow
  clients_independent ctx now until one other s different =
      let bucket = bucket_of r.window now in
      let ctx' = limited_ctx ctx r.op_timeout in
      let apart : redis_key other bucket ≢ redis_key one bucket =
        λ e. different (redis_key-injective other one bucket e) in
      counted-value ctx' (redis_key one bucket) (redis_key other bucket) bucket until
        (redis.incr ctx' (redis_key one bucket) s) apart
      ∙ laws.incr_other ctx' (redis_key one bucket) (redis_key other bucket) s apart
