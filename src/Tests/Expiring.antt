-- ===== src/Tests/Expiring.antt =====
-- A Redis whose first `EXPIRE` fails.
use production_ready_url_sho.Common.{
  ℕ, suc, ◌*◌, ◌≡◌, refl, String, Bool, true, false, Option, none, some, List, [], ◌∷◌, ◌==◌,
  if◌then◌else◌,
}
use production_ready_url_sho.Failure.{GoError, ok, err}
use production_ready_url_sho.Context.{background, second}
use production_ready_url_sho.RateLimit.{Redis, bucket_of, redis_key, allow}
use production_ready_url_sho.RateLimit.Quota.{RedisLaws, Reading, serve_all}
use production_ready_url_sho.RateLimit.Expiry.{TtlLaws, lost_expiry}
use production_ready_url_sho.Keygen.Decimal
use production_ready_url_sho.Tests.Fixtures.{outage}
use production_ready_url_sho.Tests.Traffic.{count, count_self, count_other, limiter}

-- The keys that were incremented, those with a time to live, and whether `EXPIRE` fails next.
pub record Memory : Type 0 where
  counted : List String
  expiring : List String
  broken : Bool

abbrev has : List String → String → Bool
has [] k = false
has (j ∷ js) k = if j == k then true else has js k

abbrev expire_in : Bool → String → Memory → Option GoError × Memory
expire_in true k s = (some outage, record s { broken = false })
expire_in false k s = (none, record s { expiring = k ∷ s.expiring })

abbrev shaky : Redis Memory
shaky = record {
  incr = λ ctx k s. (ok (suc (count k s.counted)), record s { counted = k ∷ s.counted });
  expire = λ ctx k w s. expire_in s.broken k s;
}

expire_in-none : (b : Bool) (k : String) (s : Memory) → b ≡ false → (expire_in b k s).0 ≡ none
expire_in-none true k s h = cc
expire_in-none false k s h = refl

expire_in-value :
    (b : Bool) (k j : String) (s : Memory) → count j (expire_in b k s).1.counted ≡ count j s.counted
expire_in-value true k j s = refl
expire_in-value false k j s = refl

expire_in-broken :
    (b : Bool) (k : String) (s : Memory) → s.broken ≡ false → (expire_in b k s).1.broken ≡ false
expire_in-broken true k s h = refl
expire_in-broken false k s h = h

abbrev shaky_laws : RedisLaws shaky
shaky_laws = record {
  value = λ s k. count k s.counted;
  IsUp = λ s. s.broken ≡ false;
  incr_result = λ ctx k s h. refl;
  incr_self = λ ctx k s h. count_self k s.counted;
  incr_other = λ ctx k j s h. count_other k j s.counted h;
  incr_up = λ ctx k s h. h;
  expire_result = λ ctx k w s h. expire_in-none s.broken k s h;
  expire_self = λ ctx k w s h. expire_in-value s.broken k k s;
  expire_other = λ ctx k j w s h. expire_in-value s.broken k j s;
  expire_up = λ ctx k w s h. expire_in-broken s.broken k s h;
}

abbrev shaky_ttl : TtlLaws shaky
shaky_ttl = record { timed = λ s k. has s.expiring k; incr_timed = λ ctx k j s. refl }

abbrev reading : ℕ → Reading
reading at = record { ctx = background; now = at * second; until = at * second }

abbrev key : String
key = redis_key "1.2.3.4" 1

abbrev before : Memory
before = record { counted = []; expiring = []; broken = true }

abbrev after : Memory
after = record { counted = key ∷ []; expiring = []; broken = false }

lost_expiry_example :
    (allow shaky limiter background (61 * second) (61 * second) "1.2.3.4" before
      ≡ (err outage, after))
    × (has
          (serve_all shaky shaky_laws limiter "1.2.3.4"
            (reading 62 ∷ reading 63 ∷ [])
            after).1.expiring
          key
        ≡ false)
unfolding bucket_of redis_key count Decimal.itoa
lost_expiry_example =
    lost_expiry shaky shaky_laws shaky_ttl limiter (reading 61) "1.2.3.4" 1
      (reading 62 ∷ reading 63 ∷ []) before after outage refl refl refl refl refl refl
      (refl, (refl, tt))
