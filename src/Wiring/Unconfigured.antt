-- ===== src/Wiring/Unconfigured.antt =====
-- What a start without a configuration file comes to.
use production_ready_url_sho.Common.{ℕ, String, ◌≡◌, ◌≢◌, ◌∙◌, refl, ap, Option, none, some}
use production_ready_url_sho.Failure.{GoError, Result, ok, err, error_of}
use production_ready_url_sho.Context.{Ctx}
use production_ready_url_sho.Platform.Config.{
  Config, Viper, config_file_not_found, pointed, load_config,
}
use production_ready_url_sho.Platform.Config.Defaults.{ViperLaws, zero_config, missing_file_zero}
use production_ready_url_sho.Platform.RedisClient.{GoRedis, new_client}
use production_ready_url_sho.Process.{
  Parts, DebugRoute, defer, or_exit, with_redis, with_router, with_tracing, configured, run,
}

-- The program with other goroutines.
abbrev pub with_goroutines :
    {S : Type 0}
    → (Config → S → S)
    → (String → (String → DebugRoute) → S → S)
    → (String → S → S)
    → Parts S
    → Parts S
with_goroutines cron debug server parts = record parts {
  start_cleanup_cron = cron;
  start_debug_server = debug;
  start_server = server;
}

module _ {S : Type 0} (parts : Parts S)
    (refused : (s : S) → (parts.new_redis_client "" s).0 ≢ none) where
  -- A failed start exits with 1.
  or_exit-code :
      (next : S → ℕ × S) (x : Option GoError × S)
      → ((s : S) → (next s).0 ≡ 1)
      → (or_exit next x).0 ≡ 1
  or_exit-code next (none, s) h = h s
  or_exit-code next (some e, s) h = refl

  or_exit-refused :
      (next : S → ℕ × S) (x : Option GoError × S) → x.0 ≢ none → (or_exit next x).0 ≡ 1
  or_exit-refused next (none, s) h = absurd (h refl)
  or_exit-refused next (some e, s) h = refl

  configured-code : (s : S) → (configured parts (ok zero_config, s)).0 ≡ 1
  unfolding configured with_tracing with_router
  configured-code s = or_exit-code (with_tracing parts zero_config) _ (λ t.
      or_exit-code (with_router parts zero_config) _ (λ u.
        or_exit-refused (with_redis parts zero_config) (parts.new_redis_client "" u) (refused u)))

  -- What follows a refused step makes no difference.
  or_exit-same :
      (next next' : S → ℕ × S) (x : Option GoError × S)
      → ((s : S) → next s ≡ next' s)
      → or_exit next x ≡ or_exit next' x
  or_exit-same next next' (none, s) h = h s
  or_exit-same next next' (some e, s) h = refl

  or_exit-unreached :
      (next next' : S → ℕ × S) (x : Option GoError × S)
      → x.0 ≢ none
      → or_exit next x ≡ or_exit next' x
  or_exit-unreached next next' (none, s) h = absurd (h refl)
  or_exit-unreached next next' (some e, s) h = refl

  configured-same :
      (cron : Config → S → S) (debug : String → (String → DebugRoute) → S → S)
      (server : String → S → S) (s : S)
      → configured parts (ok zero_config, s)
        ≡ configured (with_goroutines cron debug server parts) (ok zero_config, s)
  unfolding configured with_tracing with_router
  configured-same cron debug server s =
      let other = with_goroutines cron debug server parts in
      ap (defer parts.stop) (
        or_exit-same (with_tracing parts zero_config) (with_tracing other zero_config) _ (λ t.
          or_exit-same (with_router parts zero_config) (with_router other zero_config) _ (λ u.
            ap (defer parts.close_router) (
              or_exit-unreached (with_redis parts zero_config) (with_redis other zero_config)
                (parts.new_redis_client "" u) (refused u)))))

  -- The same of a loaded configuration that is all zero.
  configured_fails :
      (cron : Config → S → S) (debug : String → (String → DebugRoute) → S → S)
      (server : String → S → S) (r : Result Config) (s : S)
      → r ≡ ok zero_config
      → ((configured parts (r, s)).0 ≡ 1)
        × (configured parts (r, s) ≡ configured (with_goroutines cron debug server parts) (r, s))
  configured_fails cron debug server r s e =
      rw e (configured-code s, configured-same cron debug server s)

refused_url :
    {S : Type 0} (redis : GoRedis S) (ctx : Ctx) (e : GoError)
    → redis.parse_url "" ≡ err e
    → (s : S) → error_of (new_client redis ctx "" s).0 ≡ some e
unfolding new_client
refused_url redis ctx e refuses s = rw refuses refl

module _ {V : Type 0} (viper : Viper V) (laws : ViperLaws viper) {S : Type 0} (redis : GoRedis S)
    (parts : Parts S) where
  -- The program, whose configuration is what `LoadConfig` makes of viper in the state `v` and whose
  -- Redis client is what `NewClient` returns, without a file and with nothing set under a field's
  -- name: the Redis URL is empty, not the default. go-redis refuses that URL, so `run` returns 1, and
  -- the cron, the debug server and the server are never started: whatever starting them does, `run`
  -- ends alike.
  pub unconfigured_fails :
      (v : V) (ctx : Ctx) (e : GoError) (cron : Config → S → S)
      (debug : String → (String → DebugRoute) → S → S) (server : String → S → S) (s : S)
      → (viper.read_in_config (pointed viper v)).0 ≡ some config_file_not_found
      → laws.Unset (viper.read_in_config (pointed viper v)).1
      → redis.parse_url "" ≡ err e
      → ((t : S) → (parts.load_config t).0 ≡ load_config viper v)
      → ((url : String) (t : S)
          → (parts.new_redis_client url t).0 ≡ error_of (new_client redis ctx url t).0)
      → ((run parts s).0 ≡ 1) × (run parts s ≡ run (with_goroutines cron debug server parts) s)
  unfolding run
  unconfigured_fails v ctx e cron debug server s missing unset refuses loads connects =
      let fails : (t : S) → (parts.new_redis_client "" t).0 ≡ some e =
        λ t. connects "" t ∙ refused_url redis ctx e refuses t in
      configured_fails parts (λ t is_none. cc (fails t, is_none)) cron debug server
        (parts.load_config s).0 (parts.load_config s).1
        (loads s ∙ missing_file_zero viper laws v missing unset)
