-- ===== src/Tests/Configured.antt =====
-- A start without a configuration file.
use production_ready_url_sho.Common.{
  ℕ, suc, ◌≡◌, ◌∙◌, refl, ap, String, Bool, true, false, ◌||◌, none, some, List, [], ◌∷◌, ◌++◌,
  ◌==◌, if◌then◌else◌,
}
use production_ready_url_sho.Failure.{GoError, ok, err, error_of}
use production_ready_url_sho.Context.{background}
use production_ready_url_sho.Platform.Words.{runes, to_lower, lower_rune, same}
use production_ready_url_sho.Platform.Config.{
  Viper, config_file_not_found, unmarshaled, pointed, load_config,
}
use production_ready_url_sho.Platform.Config.Defaults.{
  names, fields, zero_config, ViperLaws, defaults_unread,
}
use production_ready_url_sho.Platform.RedisClient.{GoRedis, new_client}
use production_ready_url_sho.Process.{Parts, run}
use production_ready_url_sho.Wiring.Unconfigured.{with_goroutines, unconfigured_fails}

-- A viper that reads one field.
unfoldable pub level_in : List (String × String) → String
unfolding same lower_rune
level_in [] = ""
level_in ((key, value) ∷ v) =
    if same (to_lower (runes "LogLevel")) (to_lower (runes key)) then value else level_in v

abbrev one_field : Viper (List (String × String))
one_field = record {
  add_config_path = λ path v. v;
  set_config_name = λ name v. v;
  set_config_type = λ type v. v;
  automatic_env = λ v. v;
  set_default = λ key value v. (key, value) ∷ v;
  read_in_config = λ v. (some config_file_not_found, v);
  unmarshal = λ v. ok (record zero_config { log_level = level_in v });
}

or_false : (b c : Bool) → (b || c) ≡ false → (b ≡ false) × (c ≡ false)
or_false true c h = cc
or_false false c h = (refl, h)

no_name :
    (before after : List String) (f key : String)
    → names (before ++ (f ∷ after)) key ≡ false
    → same (to_lower (runes f)) (to_lower (runes key)) ≡ false
unfolding names
no_name [] after f key h = (or_false _ _ h).0
no_name (g ∷ before) after f key h = no_name before after f key (or_false _ _ h).1

other_field :
    (key : String)
    → names fields key ≡ false
    → same (to_lower (runes "LogLevel")) (to_lower (runes key)) ≡ false
other_field key h =
    no_name
      ("ServerPort" ∷ "PprofPort" ∷ "DatabaseURL" ∷ "ReadDatabaseURL" ∷ "CleanUpInterval"
        ∷ "URLUnusedThreshold" ∷ [])
      ("RedisURL" ∷ "RedisOpTimeout" ∷ "RateLimitPerMinute" ∷ "RateLimitWindow" ∷ "ServiceName"
        ∷ "ServiceVersion" ∷ "OtelExporterEndpoint" ∷ "OtelExporterInsecure" ∷ "OtelSampleRatio"
        ∷ [])
      "LogLevel" key h

elsewhere :
    (key value : String) (v w : List (String × String))
    → names fields key ≡ false
    → level_in v ≡ level_in w
    → level_in ((key, value) ∷ v) ≡ level_in w
unfolding level_in
elsewhere key value v w h e = rw (other_field key h) e

abbrev one_field_laws : ViperLaws one_field
one_field_laws = record {
  Agrees = λ v w. level_in v ≡ level_in w;
  Unset = λ v. level_in v ≡ "";
  agrees_self = λ v. refl;
  default_elsewhere = elsewhere;
  same_error = λ v w h. refl;
  still_agrees = λ v w h. h;
  unset_config = λ v w unset h. ap (λ l. ok (record zero_config { log_level = l })) (h ∙ unset);
  same_config = λ v w h. ap (λ l. ok (record zero_config { log_level = l })) h;
}

defaults_unread_example :
    load_config one_field []
    ≡ unmarshaled one_field (one_field.read_in_config (pointed one_field []))
defaults_unread_example = defaults_unread one_field one_field_laws []

abbrev no_scheme : GoError
no_scheme = GoError.other "invalid URL scheme"

-- A client library that knows no URL without a scheme.
abbrev plain_redis : GoRedis ℕ
plain_redis = record {
  parse_url = λ url.
      if url == ""
      then err no_scheme
      else ok (record { target = url; pool_size = 0; min_idle_conns = 0; conn_max_idle_time = 0 });
  new_client = λ opt s. (s, suc s);
  instrument_tracing = λ client s. (none, s);
  ping = λ ctx client s. (none, s);
  close = λ client s. s;
}

-- The program on it; each goroutine that is started leaves a mark.
abbrev marked : Parts ℕ
marked = record {
  load_config = λ s. (load_config one_field [], s);
  init_logger = λ level s. s;
  set_block_profile_rate = λ n s. s;
  set_mutex_profile_fraction = λ n s. s;
  notify_context = λ s. s;
  stop = λ s. s;
  init_tracing = λ cfg s. (none, s);
  new_router = λ url read s. (none, s);
  new_redis_client =
      λ url s. let (r, t) = new_client plain_redis background url s in (error_of r, t);
  new_services = λ cfg s. (none, s);
  start_cleanup_cron = λ cfg s. suc s;
  start_debug_server = λ a mux s. suc s;
  start_server = λ a s. suc s;
  select = λ s. (none, s);
  shutdown_server = λ ctx s. (none, s);
  shutdown_tracer = λ ctx s. (none, s);
  shutdown_debug_server = λ ctx s. (none, s);
  close_redis = λ s. s;
  close_router = λ s. s;
}

unconfigured_fails_example :
    ((run marked 0).0 ≡ 1)
    × (run marked 0 ≡ run (with_goroutines (λ cfg s. s) (λ a mux s. s) (λ a s. s) marked) 0)
unfolding level_in
unconfigured_fails_example =
    unconfigured_fails one_field one_field_laws plain_redis marked [] background no_scheme
      (λ cfg s. s) (λ a mux s. s) (λ a s. s) 0 refl refl refl (λ t. refl) (λ url t. refl)
