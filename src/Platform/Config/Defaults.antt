-- ===== src/Platform/Config/Defaults.antt =====
-- Which of the defaults reach the configuration.
use production_ready_url_sho.Common.{
  String, ◌≡◌, ◌∙◌, refl, ap, Bool, false, ◌||◌, List, [], ◌∷◌, Option, none, some, All, pos,
}
use production_ready_url_sho.Failure.{GoError, ok, err}
use production_ready_url_sho.Platform.Words.{runes, to_lower, lower_rune, same}
use production_ready_url_sho.Platform.Config.{
  Config, ReadError, config_file_not_found, read_failed, Viper, defaults, set_defaults, unmarshaled,
  pointed, load_config,
}

-- The fields' names.
abbrev pub fields : List String
fields =
    "ServerPort" ∷ "PprofPort" ∷ "DatabaseURL" ∷ "ReadDatabaseURL" ∷ "CleanUpInterval"
    ∷ "URLUnusedThreshold" ∷ "LogLevel" ∷ "RedisURL" ∷ "RedisOpTimeout" ∷ "RateLimitPerMinute"
    ∷ "RateLimitWindow" ∷ "ServiceName" ∷ "ServiceVersion" ∷ "OtelExporterEndpoint"
    ∷ "OtelExporterInsecure" ∷ "OtelSampleRatio" ∷ []

-- Whether a key is the name of a field, whatever the case of its letters.
unfoldable pub names : List String → String → Bool
unfolding same lower_rune
names [] key = false
names (f ∷ fs) key = same (to_lower (runes f)) (to_lower (runes key)) || names fs key

-- A `Config` that nothing was read into.
abbrev pub zero_config : Config
zero_config = record {
  server_port = pos 0;
  pprof_port = pos 0;
  database_url = "";
  read_database_url = "";
  clean_up_interval = pos 0;
  url_unused_threshold = pos 0;
  log_level = "";
  redis_url = "";
  redis_op_timeout = pos 0;
  rate_limit_per_minute = pos 0;
  rate_limit_window = pos 0;
  service_name = "";
  service_version = "";
  otel_exporter_endpoint = "";
  otel_exporter_insecure = false;
  otel_sample_ratio = "0";
}

-- What viper documents: keys have no case, and `Unmarshal` reads for each field the key that is its
-- name, in any case. `Agrees` says that two states answer alike at the names of the fields.
pub record ViperLaws {V : Type 0} (viper : Viper V) : Type 1 where
  pub Agrees : V → V → Type 0
  -- Nothing is set at the names of the fields.
  pub Unset : V → Type 0
  pub agrees_self : (v : V) → Agrees v v
  pub default_elsewhere :
      (key value : String) (v w : V)
      → names fields key ≡ false
      → Agrees v w
      → Agrees (viper.set_default key value v) w
  pub same_error : (v w : V) → Agrees v w → (viper.read_in_config v).0 ≡ (viper.read_in_config w).0
  pub still_agrees :
      (v w : V) → Agrees v w → Agrees (viper.read_in_config v).1 (viper.read_in_config w).1
  pub unset_config : (v w : V) → Unset w → Agrees v w → viper.unmarshal v ≡ ok zero_config
  pub same_config : (v w : V) → Agrees v w → viper.unmarshal v ≡ viper.unmarshal w

defaults-elsewhere : All (λ (d : String × String). names fields d.0 ≡ false) defaults
unfolding names lower_rune same
defaults-elsewhere = (
  refl,
  (
    refl,
    (
      refl,
      (refl, (refl, (refl, (refl, (refl, (refl, (refl, (refl, (refl, (refl, (refl, tt))))))))))),
    ),
  ),
)

module _ {V : Type 0} (viper : Viper V) (laws : ViperLaws viper) where
  set_defaults-Agrees :
      (ds : List (String × String)) (v w : V)
      → All (λ (d : String × String). names fields d.0 ≡ false) ds
      → laws.Agrees v w
      → laws.Agrees (set_defaults viper ds v) w
  unfolding set_defaults
  set_defaults-Agrees [] v w h a = a
  set_defaults-Agrees ((key, value) ∷ ds) v w (one, rest) a =
      set_defaults-Agrees ds (viper.set_default key value v) w rest
        (laws.default_elsewhere key value v w one a)

  unmarshaled-Agrees :
      (e : Option ReadError) (v w : V)
      → laws.Agrees v w
      → unmarshaled viper (e, v) ≡ unmarshaled viper (e, w)
  unfolding unmarshaled
  unmarshaled-Agrees none v w a = laws.same_config v w a
  unmarshaled-Agrees (some config_file_not_found) v w a = laws.same_config v w a
  unmarshaled-Agrees (some (read_failed e)) v w a = refl

  -- `LoadConfig` returns what it would return if it set no defaults, whatever the file and the
  -- environment hold: each of the fourteen defaults is set under a key that is no field's name.
  pub defaults_unread :
      (v : V) → load_config viper v ≡ unmarshaled viper (viper.read_in_config (pointed viper v))
  unfolding load_config
  defaults_unread v =
      let before = pointed viper v in
      let after = set_defaults viper defaults before in
      let a =
        set_defaults-Agrees defaults before before defaults-elsewhere (laws.agrees_self before) in
      let read = viper.read_in_config after in
      let same_file : read.0 ≡ (viper.read_in_config before).0 = laws.same_error after before a in
      ap (λ e. unmarshaled viper (e, read.1)) same_file
      ∙ unmarshaled-Agrees (viper.read_in_config before).0 read.1 (viper.read_in_config before).1
          (laws.still_agrees after before a)

  -- Without a file, and with nothing set under a field's name, the configuration is all zero, not the
  -- documented defaults.
  pub missing_file_zero :
      (v : V)
      → (viper.read_in_config (pointed viper v)).0 ≡ some config_file_not_found
      → laws.Unset (viper.read_in_config (pointed viper v)).1
      → load_config viper v ≡ ok zero_config
  unfolding unmarshaled
  missing_file_zero v missing unset =
      let x = viper.read_in_config (pointed viper v) in
      let read : unmarshaled viper x ≡ viper.unmarshal x.1 =
        ap (λ e. unmarshaled viper (e, x.1)) missing in
      defaults_unread v ∙ read ∙ laws.unset_config x.1 x.1 unset (laws.agrees_self x.1)

  -- A file that cannot be read, other than a missing one, stops the start with its error.
  pub unreadable_file_fails :
      (v : V) (e : GoError)
      → (viper.read_in_config (pointed viper v)).0 ≡ some (read_failed e)
      → load_config viper v ≡ err e
  unfolding unmarshaled
  unreadable_file_fails v e failed =
      let x = viper.read_in_config (pointed viper v) in
      let read : unmarshaled viper x ≡ err e = ap (λ o. unmarshaled viper (o, x.1)) failed in
      defaults_unread v ∙ read
