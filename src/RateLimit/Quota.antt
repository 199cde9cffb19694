-- ===== src/RateLimit/Quota.antt =====
-- How many requests one window lets through, on a Redis that is up.
use production_ready_url_sho.Common.{
  ℕ, zero, suc, ◌+◌, min, ◌≡◌, ◌≢◌, ◌∙◌, refl, ap, String, none, List, [], ◌∷◌, length, All, ltb,
  eqb, if◌then◌else◌, ℤ, pos, negsuc, arith, Bool-cases, inl, inr, eqb_iff,
}
use production_ready_url_sho.Failure.{Result, ok, err}
use production_ready_url_sho.Context.{Ctx}
use production_ready_url_sho.RateLimit.{
  Redis, RedisRateLimiter, Decision, bucket_of, redis_key, exceeds, decide, counted, allow,
  limited_ctx,
}

-- A timeout that Redis keeps a key for: at a timeout of 0 or less, `EXPIRE` deletes the key.
abbrev pub IsPositive : ℤ → Type 0
IsPositive (pos zero) = ⊥
IsPositive (pos (suc n)) = Unit
IsPositive (negsuc n) = ⊥

-- As Redis documents, `INCR` counts, and `EXPIRE` keeps the counter of its key if the timeout is
-- positive, and those of the other keys whatever it is. `IsUp` says that the
-- commands that are looked at do not fail, and that no counter expires between them.
pub record RedisLaws {S : Type 0} (redis : Redis S) : Type 1 where
  pub value : S → String → ℕ
  pub IsUp : S → Type 0
  pub incr_result :
      (ctx : Ctx) (k : String) (s : S) → IsUp s → (redis.incr ctx k s).0 ≡ ok (suc (value s k))
  pub incr_self :
      (ctx : Ctx) (k : String) (s : S) → IsUp s → value (redis.incr ctx k s).1 k ≡ suc (value s k)
  pub incr_other :
      (ctx : Ctx) (k j : String) (s : S) → j ≢ k → value (redis.incr ctx k s).1 j ≡ value s j
  pub incr_up : (ctx : Ctx) (k : String) (s : S) → IsUp s → IsUp (redis.incr ctx k s).1
  pub expire_result :
      (ctx : Ctx) (k : String) (w : ℤ) (s : S) → IsUp s → (redis.expire ctx k w s).0 ≡ none
  pub expire_self :
      (ctx : Ctx) (k : String) (w : ℤ) (s : S)
      → IsPositive w
      → value (redis.expire ctx k w s).1 k ≡ value s k
  pub expire_other :
      (ctx : Ctx) (k j : String) (w : ℤ) (s : S)
      → j ≢ k
      → value (redis.expire ctx k w s).1 j ≡ value s j
  pub expire_up :
      (ctx : Ctx) (k : String) (w : ℤ) (s : S) → IsUp s → IsUp (redis.expire ctx k w s).1

-- The number of requests that a limit lets through.
abbrev pub quota : ℤ → ℕ
quota (pos limit) = limit
quota (negsuc n) = 0

-- A request's readings of the clock, and its context.
pub record Reading : Type 0 where
  pub ctx : Ctx
  pub now : ℕ
  pub until : ℕ

abbrev pub passed : Result Decision → ℕ
passed (ok d) = if d.allowed then 1 else 0
passed (err e) = 0

decide_allowed :
    (r : RedisRateLimiter) (bucket until n : ℕ)
    → passed (ok (decide r bucket until (suc n))) ≡ (if ltb n (quota r.limit) then 1 else 0)
unfolding decide exceeds
decide_allowed r bucket until n = ground arith

module _ {S : Type 0} (redis : Redis S) (laws : RedisLaws redis) (r : RedisRateLimiter) where
  -- One request on a counter at `n`.
  pub record Step (key : String) (bucket n : ℕ) (x : Result Decision × S) : Type 0 where
    pub decided : (d : Decision) × (x.0 ≡ ok d)
    pub answer : passed x.0 ≡ (if ltb n (quota r.limit) then 1 else 0)
    pub counter : laws.value x.1 (redis_key key bucket) ≡ suc n
    pub up : laws.IsUp x.1

  counted-Step :
      (ctx : Ctx) (key : String) (bucket until n : ℕ) (x : Result ℕ × S)
      → (n ≡ 0 → IsPositive r.window)
      → x.0 ≡ ok (suc n)
      → laws.value x.1 (redis_key key bucket) ≡ suc n
      → laws.IsUp x.1
      → Step key bucket n (counted redis r ctx (redis_key key bucket) bucket until x)
  unfolding counted
  counted-Step ctx key bucket until n (res, s) timeout e v up =
      let k = redis_key key bucket in
      let fine = laws.expire_result ctx k r.window s up in
      rw e (elim (Bool-cases (eqb (suc n) 1)) [
        | inl first ↦
            rw (first, fine)
              (record {
                decided = (decide r bucket until (suc n), refl);
                answer = decide_allowed r bucket until n;
                counter =
                    laws.expire_self ctx k r.window s
                      (timeout (omega (arith, (eqb_iff (suc n) 1).0 first)))
                    ∙ v;
                up = laws.expire_up ctx k r.window s up;
              })
        | inr later ↦ rw later (record {
          decided = (decide r bucket until (suc n), refl);
          answer = decide_allowed r bucket until n;
          counter = v;
          up = up;
        })
      ])

  pub allow-Step :
      (x : Reading) (key : String) (n : ℕ) (s : S)
      → (n ≡ 0 → IsPositive r.window)
      → laws.value s (redis_key key (bucket_of r.window x.now)) ≡ n
      → laws.IsUp s
      → Step key (bucket_of r.window x.now) n (allow redis r x.ctx x.now x.until key s)
  unfolding allow
  allow-Step x key n s timeout v up =
      let ctx' = limited_ctx x.ctx r.op_timeout in
      let k = redis_key key (bucket_of r.window x.now) in
      counted-Step ctx' key (bucket_of r.window x.now) x.until n (redis.incr ctx' k s) timeout
        (laws.incr_result ctx' k s up ∙ ap (λ m. ok (suc m)) v)
        (laws.incr_self ctx' k s up ∙ ap suc v) (laws.incr_up ctx' k s up)

  -- Requests of one client, one after the other: how many pass, and the state after them.
  unfoldable pub serve_all : String → List Reading → S → ℕ × S
  serve_all key [] s = (0, s)
  serve_all key (x ∷ xs) s =
      let (d, s') = allow redis r x.ctx x.now x.until key s in
      let (n, s'') = serve_all key xs s' in (passed d + n, s'')

  quota_from :
      (key : String) (bucket n : ℕ) (xs : List Reading) (s : S)
      → IsPositive r.window
      → All (λ x. bucket_of r.window x.now ≡ bucket) xs
      → laws.value s (redis_key key bucket) ≡ n
      → laws.IsUp s
      → (serve_all key xs s).0 + min (quota r.limit) n ≡ min (quota r.limit) (n + length xs)
  unfolding serve_all
  quota_from key bucket n [] s positive h v up = omega arith
  quota_from key bucket n (x ∷ xs) s positive (here, h) v up =
      let step : Step key bucket n (allow redis r x.ctx x.now x.until key s) =
        rw here at (allow-Step x key n s (λ e. positive) (rw here v) up) in
      let rest =
        quota_from key bucket (suc n) xs (allow redis r x.ctx x.now x.until key s).1 positive h
          step.counter step.up in
      ground (arith, step.answer, rest)

  -- The quota of a window of a positive length is exact: of any requests of one client whose clock readings fall into one
  -- window, on a counter that starts fresh, exactly as many pass as the limit says, or all of them if
  -- they are fewer (none for a negative limit), while Redis is up.
  pub quota_exact :
      (key : String) (bucket : ℕ) (xs : List Reading) (s : S)
      → IsPositive r.window
      → All (λ x. bucket_of r.window x.now ≡ bucket) xs
      → laws.value s (redis_key key bucket) ≡ 0
      → laws.IsUp s
      → (serve_all key xs s).0 ≡ min (quota r.limit) (length xs)
  quota_exact key bucket xs s positive h v up =
      omega (arith, quota_from key bucket 0 xs s positive h v up)
