-- ===== src/Platform/RedisClient/Closing.antt =====
-- What `NewClient` leaves open.
use production_ready_url_sho.Common.{ℕ, ◌≡◌, ◌∙◌, refl, String, Option, none, some, List, ◌∷◌}
use production_ready_url_sho.Failure.{GoError, Result, ok, err}
use production_ready_url_sho.Context.{Ctx}
use production_ready_url_sho.Platform.RedisClient.{
  Options, GoRedis, tuned, pinged, instrumented, parsed, new_client,
}

-- A call on the library that opens a client, with its options, or closes one.
pub record ClientBooks {S : Type 0} (redis : GoRedis S) : Type 0 where
  -- The clients that are open, with their options, the last first.
  pub opened : S → List (ℕ × Options)
  pub opens :
      (opt : Options) (s : S)
      → opened (redis.new_client opt s).1 ≡ ((redis.new_client opt s).0, opt) ∷ opened s
  pub instrument_keeps : (c : ℕ) (s : S) → opened (redis.instrument_tracing c s).1 ≡ opened s
  pub ping_keeps : (ctx : Ctx) (c : ℕ) (s : S) → opened (redis.ping ctx c s).1 ≡ opened s
  pub closes :
      (c : ℕ) (opt : Options) (rest : List (ℕ × Options)) (s : S)
      → opened s ≡ (c, opt) ∷ rest
      → opened (redis.close c s) ≡ rest

module _ {S : Type 0} (redis : GoRedis S) (books : ClientBooks redis) (ctx : Ctx) where
  -- A success leaves one more client, with the URL's options but the program's pool; a failure
  -- leaves none.
  abbrev pub Leaves : Result Options → List (ℕ × Options) → Result ℕ × S → Type 0
  Leaves url before (ok c, s) =
      (opt : Options) × (url ≡ ok opt) × (books.opened s ≡ (c, tuned opt) ∷ before)
  Leaves url before (err e, s) = books.opened s ≡ before

  pinged-Leaves :
      (c : ℕ) (opt : Options) (before : List (ℕ × Options)) (x : Option GoError × S)
      → books.opened x.1 ≡ (c, tuned opt) ∷ before
      → Leaves (ok opt) before (pinged redis ctx c x)
  unfolding pinged
  pinged-Leaves c opt before (none, s) h = (opt, refl, h)
  pinged-Leaves c opt before (some e, s) h = books.closes c (tuned opt) before s h

  instrumented-Leaves :
      (c : ℕ) (opt : Options) (before : List (ℕ × Options)) (x : Option GoError × S)
      → books.opened x.1 ≡ (c, tuned opt) ∷ before
      → Leaves (ok opt) before (instrumented redis ctx c x)
  unfolding instrumented
  instrumented-Leaves c opt before (none, s) h =
      pinged-Leaves c opt before (redis.ping ctx c s) (books.ping_keeps ctx c s ∙ h)
  instrumented-Leaves c opt before (some e, s) h = books.closes c (tuned opt) before s h

  parsed-Leaves : (r : Result Options) (s : S) → Leaves r (books.opened s) (parsed redis ctx r s)
  unfolding parsed
  parsed-Leaves (err e) s = refl
  parsed-Leaves (ok opt) s =
      let (c, s') = redis.new_client (tuned opt) s in
      instrumented-Leaves c opt (books.opened s) (redis.instrument_tracing c s')
        (books.instrument_keeps c s' ∙ books.opens (tuned opt) s)

  -- A client that `NewClient` returns is open, with the URL's options and the program's pool settings,
  -- beside those that
  -- were; where it fails, on the URL, on the tracing hook or on the ping, the client that it opened
  -- is closed again, and exactly those are open that were.
  pub new_client-Leaves :
      (url : String) (s : S)
      → Leaves (redis.parse_url url) (books.opened s) (new_client redis ctx url s)
  unfolding new_client
  new_client-Leaves url s = parsed-Leaves (redis.parse_url url) s
