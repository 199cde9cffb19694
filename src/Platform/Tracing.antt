-- ===== src/Platform/Tracing.antt =====
-- internal/platform/observability/tracing.go: `InitTracing`. OpenTelemetry is the parameter `Otel`; an
-- exporter is a number.
pub mod Installing
use production_ready_url_sho.Common.{
  ℕ, suc, ◌*◌, String, Bool, true, false, Option, none, List, [], ◌∷◌, ltb, ◌==◌, if◌then◌else◌,
}
use production_ready_url_sho.Failure.{GoError, wrapped, Result, ok, err}
use production_ready_url_sho.Context.{Ctx, second}

-- A `float64`: a fraction of a denominator `suc d` with a sign, an infinity, or no number.
pub data Float64 : Type 0 where
  not_a_number : Float64
  infinite : (negative : Bool) → Float64
  fraction : (negative : Bool) (numerator d : ℕ) → Float64

-- `f < 0` and `f > 1`, which are false of what is no number. A negative zero is not below zero.
unfoldable pub below_zero : Float64 → Bool
below_zero not_a_number = false
below_zero (infinite negative) = negative
below_zero (fraction true n d) = ltb 0 n
below_zero (fraction false n d) = false

unfoldable pub above_one : Float64 → Bool
above_one not_a_number = false
above_one (infinite true) = false
above_one (infinite false) = true
above_one (fraction true n d) = false
above_one (fraction false n d) = ltb (suc d) n

abbrev pub zero_ratio : Float64
zero_ratio = fraction false 0 0

abbrev pub one_ratio : Float64
one_ratio = fraction false 1 0

-- The two tests, one after the other.
unfoldable pub clamped : Float64 → Float64
unfolding below_zero above_one
clamped sample_ratio =
    let ratio = if below_zero sample_ratio then zero_ratio else sample_ratio in
    if above_one ratio then one_ratio else ratio

pub record TracingConfig : Type 0 where
  pub exporter_endpoint : String
  pub insecure : Bool
  pub service_name : String
  pub service_version : String
  pub sample_ratio : Float64

pub data ExporterOption : Type 0 where
  with_endpoint_url : String → ExporterOption
  with_insecure : ExporterOption

-- What `NewTracerProvider` is given. The sampler is `ParentBased(TraceIDRatioBased(ratio))`.
pub record Provider (R : Type 0) : Type 0 where
  pub exporter : ℕ
  pub batch_timeout : ℕ
  pub max_export_batch_size : ℕ
  pub resource : R
  pub ratio : Float64

pub record Otel (R S : Type 0) : Type 0 where
  pub set_text_map_propagator : S → S
  pub set_noop_provider : S → S
  pub set_tracer_provider : Provider R → S → S
  pub new_exporter : Ctx → List ExporterOption → S → Result ℕ × S
  -- `resource.Merge` of the default with a schemaless one of a name and a version
  pub merge : (service_name service_version : String) → Result R
  pub shutdown : Provider R → Ctx → S → Option GoError × S

abbrev options : TracingConfig → List ExporterOption
options cfg =
    with_endpoint_url cfg.exporter_endpoint ∷ (if cfg.insecure then with_insecure ∷ [] else [])

abbrev pub provider_of : {R : Type 0} → TracingConfig → ℕ → R → Provider R
provider_of cfg exporter resource = record {
  exporter = exporter;
  batch_timeout = 5 * second;
  max_export_batch_size = 512;
  resource = resource;
  ratio = clamped cfg.sample_ratio;
}

abbrev pub ShutdownFunc : Type 0 → Type 0
ShutdownFunc S = Ctx → S → Option GoError × S

module _ {R S : Type 0} (otel : Otel R S) (ctx : Ctx) (cfg : TracingConfig) where
  unfoldable pub merged : ℕ → Result R → S → Result (ShutdownFunc S) × S
  merged exporter (err e) s = (err (wrapped "resource" e), s)
  merged exporter (ok resource) s =
      let tp = provider_of cfg exporter resource in
      (ok (otel.shutdown tp), otel.set_tracer_provider tp s)

  unfoldable pub exporting : Result ℕ × S → Result (ShutdownFunc S) × S
  unfolding merged
  exporting (err e, s) = (err (wrapped "otlp exporter" e), s)
  exporting (ok exporter, s) = merged exporter (otel.merge cfg.service_name cfg.service_version) s

  unfoldable pub init_tracing : S → Result (ShutdownFunc S) × S
  unfolding exporting
  init_tracing s =
      let s' = otel.set_text_map_propagator s in
      if cfg.exporter_endpoint == ""
      then (ok (λ c t. (none, t)), otel.set_noop_provider s')
      else exporting (otel.new_exporter ctx (options cfg) s')
