-- ===== src/Platform/Tracing/Installing.antt =====
-- Which tracer provider is installed, and what the shutdown function flushes.
use production_ready_url_sho.Common.{
  ℕ, suc, ◌≤◌, ◌≡◌, ◌≢◌, ◌∙◌, refl, true, false, ltb, none, List, ◌==◌, eq_iff, ◌⊎◌, inl, inr,
  Bool-cases, arith,
}
use production_ready_url_sho.Failure.{Result, ok, err}
use production_ready_url_sho.Context.{Ctx}
use production_ready_url_sho.Platform.Tracing.{
  Float64, not_a_number, infinite, fraction, below_zero, above_one, clamped, TracingConfig,
  ExporterOption, Provider, Otel, provider_of, ShutdownFunc, merged, exporting, init_tracing,
}

-- A ratio in [0, 1], or no number.
abbrev pub InUnit : Float64 → Type 0
InUnit not_a_number = Unit
InUnit (infinite negative) = ⊥
InUnit (fraction true n d) = n ≡ 0
InUnit (fraction false n d) = n ≤ suc d

pub clamped-InUnit : (f : Float64) → InUnit (clamped f)
unfolding clamped below_zero above_one
clamped-InUnit not_a_number = tt
clamped-InUnit (infinite true) = omega arith
clamped-InUnit (infinite false) = omega arith
clamped-InUnit (fraction true n d) = elim (Bool-cases (ltb 0 n)) [
  | inl below ↦ rw below (omega arith)
  | inr inside ↦ rw inside (ground arith)
]
clamped-InUnit (fraction false n d) = elim (Bool-cases (ltb (suc d) n)) [
  | inl above ↦ rw above (omega arith)
  | inr inside ↦ rw inside (ground arith)
]

pub clamped_inside : (f : Float64) → InUnit f → clamped f ≡ f
unfolding clamped below_zero above_one
clamped_inside not_a_number h = refl
clamped_inside (infinite negative) h = elim h [ ]
clamped_inside (fraction true n d) h = rw h refl
clamped_inside (fraction false n d) h = ground arith

-- The tracer provider of the process.
pub data Installed (R : Type 0) : Type 0 where
  unset noop : Installed R
  sdk : Provider R → Installed R

pub record OtelLaws {R S : Type 0} (otel : Otel R S) : Type 0 where
  pub installed : S → Installed R
  pub propagator : (s : S) → installed (otel.set_text_map_propagator s) ≡ installed s
  pub noop_set : (s : S) → installed (otel.set_noop_provider s) ≡ noop
  pub provider_set : (p : Provider R) (s : S) → installed (otel.set_tracer_provider p s) ≡ sdk p
  pub exporter_keeps :
      (ctx : Ctx) (opts : List ExporterOption) (s : S)
      → installed (otel.new_exporter ctx opts s).1 ≡ installed s

module _ {R S : Type 0} (otel : Otel R S) (laws : OtelLaws otel) (ctx : Ctx)
    (cfg : TracingConfig) where
  -- Tracing is on: a provider is installed, and the shutdown function is its own.
  abbrev pub Exports : ShutdownFunc S → S → Type 0
  Exports stop t =
      (p : Provider R) × (laws.installed t ≡ sdk p)
      × (stop ≡ otel.shutdown p)
      × InUnit p.ratio
      × (InUnit cfg.sample_ratio → p.ratio ≡ cfg.sample_ratio)

  -- Tracing is off: the shutdown function does nothing.
  abbrev pub Silent : ShutdownFunc S → S → Type 0
  Silent stop t = (laws.installed t ≡ noop) × ((c : Ctx) (u : S) → stop c u ≡ (none, u))

  -- The provider is the old one after an error.
  abbrev pub Installs : S → Result (ShutdownFunc S) × S → Type 0
  Installs s (err e, t) = (cfg.exporter_endpoint ≢ "") × (laws.installed t ≡ laws.installed s)
  Installs s (ok stop, t) =
      ((cfg.exporter_endpoint ≡ "") × Silent stop t)
      ⊎ ((cfg.exporter_endpoint ≢ "") × Exports stop t)

  merged-Installs :
      (s : S) (exporter : ℕ) (r : Result R) (t : S)
      → cfg.exporter_endpoint ≢ ""
      → laws.installed t ≡ laws.installed s
      → Installs s (merged otel ctx cfg exporter r t)
  unfolding merged
  merged-Installs s exporter (err e) t on h = (on, h)
  merged-Installs s exporter (ok resource) t on h =
      let p = provider_of cfg exporter resource in
      inr (
        on,
        (
          p,
          laws.provider_set p t,
          refl,
          clamped-InUnit cfg.sample_ratio,
          clamped_inside cfg.sample_ratio,
        ),
      )

  exporting-Installs :
      (s : S) (x : Result ℕ × S)
      → cfg.exporter_endpoint ≢ ""
      → laws.installed x.1 ≡ laws.installed s
      → Installs s (exporting otel ctx cfg x)
  unfolding exporting
  exporting-Installs s (err e, t) on h = (on, h)
  exporting-Installs s (ok exporter, t) on h =
      merged-Installs s exporter (otel.merge cfg.service_name cfg.service_version) t on h

  -- Without an endpoint `InitTracing` succeeds, installs the silent provider, and its shutdown
  -- function does nothing. With one, it either fails and leaves the provider that was installed, or
  -- installs the exporting provider that the shutdown function flushes, whose sample ratio is in
  -- [0, 1] or no number, and the configured one if that is.
  pub init_tracing-Installs : (s : S) → Installs s (init_tracing otel ctx cfg s)
  unfolding init_tracing
  init_tracing-Installs s = elim (Bool-cases (cfg.exporter_endpoint == "")) [
    | inl off ↦
        rw off (inl ((eq_iff cfg.exporter_endpoint "").0 off, (laws.noop_set _, λ c u. refl)))
    | inr on ↦ rw on (
        exporting-Installs s _ (λ e. cc ((eq_iff cfg.exporter_endpoint "").1 e, on))
          (laws.exporter_keeps ctx _ _ ∙ laws.propagator s))
  ]
