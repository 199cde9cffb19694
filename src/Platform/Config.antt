-- ===== src/Platform/Config.antt =====
-- internal/platform/config/config.go: the configuration, and `LoadConfig` over viper, which is the
-- parameter `Viper`. A float is kept as the text that viper parses.
pub mod Defaults
use production_ready_url_sho.Common.{String, Bool, List, [], ◌∷◌, Option, none, some, ℤ}
use production_ready_url_sho.Failure.{GoError, Result, err}

-- Durations are nanoseconds.
pub record Config : Type 0 where
  pub server_port : ℤ
  pub pprof_port : ℤ
  pub database_url : String
  pub read_database_url : String
  pub clean_up_interval : ℤ
  pub url_unused_threshold : ℤ
  pub log_level : String
  pub redis_url : String
  pub redis_op_timeout : ℤ
  pub rate_limit_per_minute : ℤ
  pub rate_limit_window : ℤ
  pub service_name : String
  pub service_version : String
  pub otel_exporter_endpoint : String
  pub otel_exporter_insecure : Bool
  pub otel_sample_ratio : String

-- What `ReadInConfig` fails with.
pub data ReadError : Type 0 where
  config_file_not_found : ReadError
  read_failed : GoError → ReadError

pub record Viper (V : Type 0) : Type 0 where
  pub add_config_path : String → V → V
  pub set_config_name : String → V → V
  pub set_config_type : String → V → V
  pub automatic_env : V → V
  pub set_default : (key value : String) → V → V
  pub read_in_config : V → Option ReadError × V
  -- `Unmarshal` into a `Config` whose fields are all zero.
  pub unmarshal : V → Result Config

-- The keys and values of `SetDefault`, in the order of the calls.
abbrev pub defaults : List (String × String)
defaults =
    ("SERVER_PORT", "8080")
    ∷ ("PPROF_PORT", "6060")
    ∷ ("CLEANUP_INTERVAL", "1m")
    ∷ ("URL_UNUSED_THRESHOLD", "24h")
    ∷ ("LOG_LEVEL", "info")
    ∷ ("REDIS_URL", "redis://localhost:6379/0")
    ∷ ("REDIS_OP_TIMEOUT", "100ms")
    ∷ ("RATE_LIMIT_PER_MINUTE", "100")
    ∷ ("RATE_LIMIT_WINDOW", "1m")
    ∷ ("SERVICE_NAME", "url-shortener")
    ∷ ("SERVICE_VERSION", "dev")
    ∷ ("OTEL_EXPORTER_ENDPOINT", "")
    ∷ ("OTEL_EXPORTER_INSECURE", "false")
    ∷ ("OTEL_SAMPLE_RATIO", "1.0")
    ∷ []

module _ {V : Type 0} (viper : Viper V) where
  unfoldable pub set_defaults : List (String × String) → V → V
  set_defaults [] v = v
  set_defaults ((key, value) ∷ rest) v = set_defaults rest (viper.set_default key value v)

  -- A missing file is no error.
  unfoldable pub unmarshaled : Option ReadError × V → Result Config
  unmarshaled (none, v) = viper.unmarshal v
  unmarshaled (some config_file_not_found, v) = viper.unmarshal v
  unmarshaled (some (read_failed e), v) = err e

  -- Where to look for the file, and that the environment overrides it.
  abbrev pub pointed : V → V
  pointed v =
      viper.automatic_env
        (viper.set_config_type "env" (viper.set_config_name ".env" (viper.add_config_path "." v)))

  unfoldable pub load_config : V → Result Config
  unfolding set_defaults unmarshaled
  load_config v = unmarshaled (viper.read_in_config (set_defaults defaults (pointed v)))
