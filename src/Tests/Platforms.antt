-- ===== src/Tests/Platforms.antt =====
-- What the start reads and sets up, over small libraries.
use text.Mathlib.Text.{starts_with}
use production_ready_url_sho.Common.{
  ℕ, ◌≡◌, refl, String, true, false, ◌||◌, Option, none, some, List, [], ◌∷◌, length, ◌==◌,
  if◌then◌else◌, eq_iff, eqb, eqb_iff, arith, Bool-cases, inl, inr,
}
use production_ready_url_sho.Failure.{ok}
use production_ready_url_sho.Context.{background}
use production_ready_url_sho.Platform.Words.{lower_rune, is_space, same, trim_space}
use production_ready_url_sho.Platform.Logger.{level_of, init, enabled, level_debug}
use production_ready_url_sho.Platform.RedisClient.{Options, GoRedis}
use production_ready_url_sho.Platform.RedisClient.Closing.{ClientBooks}
use production_ready_url_sho.Platform.Tracing.{TracingConfig, Otel, fraction, init_tracing}
use production_ready_url_sho.Platform.Tracing.Installing.{
  Installed, unset, noop, sdk, OtelLaws, Installs, init_tracing-Installs,
}
use production_ready_url_sho.Platform.Metrics.{
  Prometheus, Desc, http_requests_total, must_register, built_in,
}
use production_ready_url_sho.Platform.Metrics.Starting.{PrometheusLaws, taken}
use production_ready_url_sho.Tests.Fixtures.{outage}

gates : enabled (init "  Info ") level_debug ≡ false
unfolding init level_of same trim_space lower_rune is_space
gates = refl

abbrev drop_first : List (ℕ × Options) → List (ℕ × Options)
drop_first [] = []
drop_first (x ∷ xs) = xs

drops :
    (c : ℕ) (opt : Options) (rest s : List (ℕ × Options))
    → s ≡ (c, opt) ∷ rest
    → drop_first s ≡ rest
drops c opt rest s e = rw e refl

-- A server whose clients are numbered, and that answers no ping.
abbrev mute_redis : GoRedis (List (ℕ × Options))
mute_redis = record {
  parse_url = λ url.
      ok (record { target = url; pool_size = 10; min_idle_conns = 0; conn_max_idle_time = 0 });
  new_client = λ opt s. (length s, (length s, opt) ∷ s);
  instrument_tracing = λ c s. (none, s);
  ping = λ ctx c s. (some outage, s);
  close = λ c s. drop_first s;
}

abbrev mute_books : ClientBooks mute_redis
mute_books = record {
  opened = λ s. s;
  opens = λ opt s. refl;
  instrument_keeps = λ c s. refl;
  ping_keeps = λ ctx c s. refl;
  closes = drops;
}

-- A collector that accepts everything; the state is the provider that is installed.
abbrev collector : Otel ℕ (Installed ℕ)
collector = record {
  set_text_map_propagator = λ s. s;
  set_noop_provider = λ s. noop;
  set_tracer_provider = λ p s. sdk p;
  new_exporter = λ ctx opts s. (ok 7, s);
  merge = λ name version. ok 0;
  shutdown = λ p ctx s. (none, s);
}

abbrev collector_laws : OtelLaws collector
collector_laws = record {
  installed = λ s. s;
  propagator = λ s. refl;
  noop_set = λ s. refl;
  provider_set = λ p s. refl;
  exporter_keeps = λ ctx opts s. refl;
}

-- A ratio of 5 / 2.
abbrev tracing : TracingConfig
tracing = record {
  exporter_endpoint = "http://localhost:4318";
  insecure = true;
  service_name = "url-shortener";
  service_version = "dev";
  sample_ratio = fraction false 5 1;
}

init_tracing-Installs_example :
    Installs collector collector_laws background tracing unset
      (init_tracing collector background tracing unset)
init_tracing-Installs_example =
    init_tracing-Installs collector collector_laws background tracing unset

-- A registry of names; a collector is its description.
abbrev register_name : Desc → List String → Option (List String)
register_name d r = if taken r d.name then none else some (d.name ∷ r)

abbrev record_if : Desc → List String → List String → Option (List String)
record_if d values r = if eqb (length values) (length d.labels) then some r else none

abbrev built : String → Desc
built name = record http_requests_total { name = name }

abbrev names_only : Prometheus Desc (List String)
names_only = record {
  new_registry = [];
  go_collector = built "go_goroutines";
  process_collector = built "process_cpu_seconds_total";
  vec = λ d. d;
  register = register_name;
  record_values = record_if;
}

built_fits :
    must_register names_only (built_in names_only) (some [])
    ≡ some ("process_cpu_seconds_total" ∷ "go_goroutines" ∷ [])
unfolding must_register
built_fits = refl

built_names :
    (r : List String) (name : String)
    → must_register names_only (built_in names_only) (some []) ≡ some r
    → taken r name ≡ true
    → (starts_with name "go_" || starts_with name "process_") ≡ true
unfolding must_register
built_names r name e h =
    let names : r ≡ "process_cpu_seconds_total" ∷ "go_goroutines" ∷ [] = cc e in
    let there : (("process_cpu_seconds_total" == name) || (("go_goroutines" == name) || false))
        ≡ true =
      rw names at h in
    elim (Bool-cases ("process_cpu_seconds_total" == name)) [
      | inl this ↦ rw (← (eq_iff "process_cpu_seconds_total" name).0 this) refl
      | inr other ↦ elim (Bool-cases ("go_goroutines" == name)) [
        | inl this ↦ rw (← (eq_iff "go_goroutines" name).0 this) refl
        | inr none_of ↦ ground (arith, there)
      ]
    ]

names_register :
    (d : Desc) (r : List String)
    → taken r d.name ≡ false
    → (r' : List String) × (register_name d r ≡ some r') × (r' ≡ d.name ∷ r)
names_register d r h = (d.name ∷ r, rw h refl, refl)

names_record :
    (d : Desc) (values r : List String)
    → length values ≡ length d.labels
    → (r' : List String) × (record_if d values r ≡ some r')
names_record d values r h = (r, rw ((eqb_iff (length values) (length d.labels)).1 h) refl)

abbrev names_laws : PrometheusLaws names_only
names_laws = record {
  names = λ r. r;
  built_in_fits = ("process_cpu_seconds_total" ∷ "go_goroutines" ∷ [], built_fits);
  built_in_names = built_names;
  registers = names_register;
  records = names_record;
}
