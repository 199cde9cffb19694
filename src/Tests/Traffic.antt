-- ===== src/Tests/Traffic.antt =====
-- The limiter over a Redis that remembers the keys that it incremented.
use production_ready_url_sho.Common.{
  ℕ, zero, suc, ◌*◌, ◌≤◌, ◌≡◌, ◌≢◌, refl, sym, ◌∙◌, eq_iff, Bool-cases, inl, inr, false, ℤ, negsuc,
  String, none, List, [], ◌∷◌, ◌==◌, eq_refl, ==-false_of_ne, if◌then◌else◌, pos, arith,
}
use production_ready_url_sho.Failure.{GoError, ok, err}
use production_ready_url_sho.Context.{background, second}
use production_ready_url_sho.Keygen.Decimal
use production_ready_url_sho.RateLimit.{
  decide, Redis, RedisRateLimiter, window_seconds, bucket_of, redis_key, allow,
}
use production_ready_url_sho.RateLimit.Quota.{IsPositive, RedisLaws, Reading, serve_all}
use production_ready_url_sho.RateLimit.Overflow.{max_int64, fits_int64}
use production_ready_url_sho.Http.{Request}
use production_ready_url_sho.Http.Handlers.{liveness}
use production_ready_url_sho.Http.Limiting.{App, skips}
use production_ready_url_sho.Http.Engine.{RouterDeps}
use production_ready_url_sho.Http.Engine.Throttling.{Arrival, Unlimiting, AllUnlimiting}
use production_ready_url_sho.Http.Engine.Fleet.{Fleet, Visit, Looked, serve_fleet, fleet_quota}

unfoldable pub count : String → List String → ℕ
count k [] = 0
count k (j ∷ js) = if j == k then suc (count k js) else count k js

unfoldable forget : String → List String → List String
forget k [] = []
forget k (j ∷ js) = let rest = forget k js in if j == k then rest else j ∷ rest

-- A timeout that is not positive deletes the key.
unfoldable timed : ℤ → String → List String → List String
unfolding forget
timed (pos zero) k s = forget k s
timed (pos (suc n)) k s = s
timed (negsuc n) k s = forget k s

abbrev remembering : Redis (List String)
remembering = record {
  incr = λ ctx k s. (ok (suc (count k s)), k ∷ s);
  expire = λ ctx k w s. (none, timed w k s);
}

pub count_self : (k : String) (s : List String) → count k (k ∷ s) ≡ suc (count k s)
unfolding count
count_self k s = rw (eq_refl k) refl

pub count_other : (k j : String) (s : List String) → j ≢ k → count j (k ∷ s) ≡ count j s
unfolding count
count_other k j s h = rw (==-false_of_ne k j (λ e. h (sym e))) refl

count-forget : (k j : String) (s : List String) → j ≢ k → count j (forget k s) ≡ count j s
unfolding count forget
count-forget k j [] h = refl
count-forget k j (i ∷ is) h = elim (Bool-cases (i == k)) [
  | inl same ↦
      let other : (i == j) ≡ false = ==-false_of_ne i j (λ e. h (sym e ∙ (eq_iff i k).0 same)) in
      rw (same, other) (count-forget k j is h)
  | inr apart ↦ rw (apart, count-forget k j is h) refl
]

count-timed_self :
    (w : ℤ) (k : String) (s : List String) → IsPositive w → count k (timed w k s) ≡ count k s
unfolding timed
count-timed_self (pos zero) k s h = absurd h
count-timed_self (pos (suc n)) k s h = refl
count-timed_self (negsuc n) k s h = absurd h

count-timed_other :
    (w : ℤ) (k j : String) (s : List String) → j ≢ k → count j (timed w k s) ≡ count j s
unfolding timed
count-timed_other (pos zero) k j s h = count-forget k j s h
count-timed_other (pos (suc n)) k j s h = refl
count-timed_other (negsuc n) k j s h = count-forget k j s h

abbrev remembering_laws : RedisLaws remembering
remembering_laws = record {
  value = λ s k. count k s;
  IsUp = λ s. Unit {0};
  incr_result = λ ctx k s h. refl;
  incr_self = λ ctx k s h. count_self k s;
  incr_other = λ ctx k j s h. count_other k j s h;
  incr_up = λ ctx k s h. tt;
  expire_result = λ ctx k w s h. refl;
  expire_self = λ ctx k w s h. count-timed_self w k s h;
  expire_other = λ ctx k j w s h. count-timed_other w k j s h;
  expire_up = λ ctx k w s h. tt;
}

-- Two requests in any 60 seconds.
abbrev pub limiter : RedisRateLimiter
limiter = record { limit = pos 2; window = pos (60 * second); op_timeout = pos 50_000_000 }

abbrev reading : ℕ → Reading
reading at = record { ctx = background; now = at * second; until = at * second }

-- The first requests of a minute use up its quota; the next minute's counter is fresh.
burst :
    (serve_all remembering remembering_laws limiter "1.2.3.4"
      (reading 61 ∷ reading 62 ∷ reading 119 ∷ reading 120 ∷ [])
      []).0
    ≡ 3
unfolding serve_all allow bucket_of redis_key count timed Decimal.itoa
burst = refl

-- With a window of no length the quota is never enforced: each `EXPIRE` deletes the counter.
unlimited :
    (serve_all remembering remembering_laws
      (record limiter { window = pos 0 })
      "1.2.3.4"
      (reading 61 ∷ reading 61 ∷ reading 61 ∷ reading 61 ∷ [])
      []).0
    ≡ 4
unfolding serve_all allow bucket_of redis_key count timed Decimal.itoa
unlimited = refl

-- Six requests around the turn of a minute, within five seconds.
abbrev around : List Reading
around = reading 118 ∷ reading 119 ∷ reading 119 ∷ reading 120 ∷ reading 121 ∷ reading 122 ∷ []

-- The bound is reached.
twice_the_limit : (serve_all remembering remembering_laws limiter "1.2.3.4" around []).0 ≡ 4
unfolding serve_all allow bucket_of redis_key count timed Decimal.itoa
twice_the_limit = refl

-- A window of 292 years, the longest that a `time.Duration` holds.
abbrev longest : RedisRateLimiter
longest = record { limit = pos 2; window = pos max_int64; op_timeout = pos 0 }

abbrev today : ℕ
today = 1_780_000_000 * second

fits_int64_example :
    (window_seconds longest.window ≤ max_int64)
    × (suc (bucket_of longest.window today) ≤ max_int64)
    × (suc (bucket_of longest.window today) * window_seconds longest.window ≤ max_int64)
    × ((decide longest (bucket_of longest.window today) today 3).retry_after ≤ max_int64)
fits_int64_example = fits_int64 longest today today 3 (omega arith) (omega arith) (omega arith)

-- Three requests in one minute, on an engine whose handlers answer at once.
abbrev pub deps : RouterDeps (List String)
deps = record {
  liveness = liveness;
  readiness = liveness;
  create = liveness;
  redirect = liveness;
  swagger = liveness;
  rate_limiter = none;
}

abbrev pub full_path : Request → String
full_path req = "/:key"

abbrev arrival : ℕ → Arrival
arrival at = record {
  request = record {
    method = "GET";
    path = "/key";
    ctx = background;
    remote = "1.2.3.4";
    user_agent = "curl";
    input = err (GoError.other "EOF");
    key = "key";
  };
  now = at * second;
  until = at * second;
}

abbrev app : App (List String)
app = record { metrics = none; inner = [] }

liveness_unlimiting :
    (r : RedisRateLimiter) → Unlimiting remembering remembering_laws r full_path deps liveness
unfolding liveness
liveness_unlimiting r req s = ((λ e. omega (arith, e)), (λ k. refl), (λ up. up))

deps-AllUnlimiting :
    (r : RedisRateLimiter) → AllUnlimiting remembering remembering_laws r full_path deps
deps-AllUnlimiting r = record {
  liveness = liveness_unlimiting r;
  readiness = liveness_unlimiting r;
  create = liveness_unlimiting r;
  redirect = liveness_unlimiting r;
  swagger = liveness_unlimiting r;
}

-- Two servers, and two clients.
abbrev visit_at : (server at : ℕ) → String → Visit
visit_at server at ip = record {
  server = server;
  arrival = record (arrival at) { request = record (arrival at).request { remote = ip } };
}

abbrev fleet : Fleet (List String)
fleet = record { metrics = λ i. none; shared = [] }

looked :
    (server at : ℕ) (ip : String)
    → bucket_of limiter.window (at * second) ≡ 1
    → Looked remembering remembering_laws limiter full_path deps 1 (visit_at server at ip)
unfolding skips
looked server at ip e = record { looked_at = refl; window = e }

fleet_quota_example :
    (serve_fleet remembering remembering_laws limiter full_path deps "1.2.3.4"
      (visit_at 0 61 "1.2.3.4"
        ∷ visit_at 1 62 "1.2.3.4"
        ∷ visit_at 0 63 "5.6.7.8"
        ∷ visit_at 1 119 "1.2.3.4"
        ∷ [])
      fleet).0
    ≡ 2
unfolding bucket_of redis_key count
fleet_quota_example =
    fleet_quota remembering remembering_laws limiter full_path deps "1.2.3.4" 1
      (visit_at 0 61 "1.2.3.4"
        ∷ visit_at 1 62 "1.2.3.4"
        ∷ visit_at 0 63 "5.6.7.8"
        ∷ visit_at 1 119 "1.2.3.4"
        ∷ [])
      fleet tt (deps-AllUnlimiting limiter)
      (
        looked 0 61 "1.2.3.4" refl,
        (
          looked 1 62 "1.2.3.4" refl,
          (looked 0 63 "5.6.7.8" refl, (looked 1 119 "1.2.3.4" refl, tt)),
        ),
      )
      refl tt
