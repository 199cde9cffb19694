-- ===== src/Platform/Metrics/Starting.antt =====
-- That the metrics never panic.
use text.Mathlib.Text.{starts_with}
use production_ready_url_sho.Common.{
  String, ◌≡◌, refl, ap, Bool, true, false, ◌||◌, Option, none, some, List, [], ◌∷◌, length, ◌==◌,
  Bool-cases, inl, inr,
}
use production_ready_url_sho.Platform.Metrics.{
  Desc, Prometheus, Count, request, allowed, denied, failed_open, http_requests_total,
  http_request_duration, rate_limit_decisions, must_register, app_metrics, built_in, new_registry,
  count, count_all,
}
use production_ready_url_sho.Http.Limiting.{route_label}
use production_ready_url_sho.Keygen.Decimal.{itoa}

-- Whether a name is in a list.
abbrev pub taken : List String → String → Bool
taken [] name = false
taken (n ∷ ns) name = (n == name) || taken ns name

-- What Prometheus documents: a collector whose names are new is registered, the names of the
-- built-in collectors begin with go_ and process_, and as many values as there are labels never panic.
pub record PrometheusLaws {C R : Type 0} (prometheus : Prometheus C R) : Type 0 where
  -- The names that are registered.
  pub names : R → List String
  pub built_in_fits :
      (r : R) × (must_register prometheus (built_in prometheus) (some prometheus.new_registry)
        ≡ some r)
  pub built_in_names :
      (r : R) (name : String)
      → must_register prometheus (built_in prometheus) (some prometheus.new_registry) ≡ some r
      → taken (names r) name ≡ true
      → (starts_with name "go_" || starts_with name "process_") ≡ true
  pub registers :
      (d : Desc) (r : R)
      → taken (names r) d.name ≡ false
      → (r' : R) × (prometheus.register (prometheus.vec d) r ≡ some r')
        × (names r' ≡ d.name ∷ names r)
  pub records :
      (d : Desc) (values : List String) (r : R)
      → length values ≡ length d.labels
      → (r' : R) × (prometheus.record_values (prometheus.vec d) values r ≡ some r')

-- No panic.
abbrev pub Fine : {R : Type 0} → Option R → Type 0
Fine none = ⊥
Fine (some r) = Unit

module _ {C R : Type 0} (prometheus : Prometheus C R) (laws : PrometheusLaws prometheus) where
  -- The names of some metrics are new, and differ among themselves.
  abbrev Distinct : List String → List String → Type 0
  Distinct names [] = Unit
  Distinct names (n ∷ ns) = (taken names n ≡ false) × Distinct (n ∷ names) ns

  abbrev vecs : List Desc → List C
  vecs [] = []
  vecs (d ∷ ds) = prometheus.vec d ∷ vecs ds

  abbrev names_of : List Desc → List String
  names_of [] = []
  names_of (d ∷ ds) = d.name ∷ names_of ds

  must_register-Fine :
      (ds : List Desc) (r : R)
      → Distinct (laws.names r) (names_of ds)
      → Fine (must_register prometheus (vecs ds) (some r))
  unfolding must_register
  must_register-Fine [] r h = tt
  must_register-Fine (d ∷ ds) r (new, h) =
      let (r', e, ns) = laws.registers d r new in
      let step : must_register prometheus (vecs (d ∷ ds)) (some r)
          ≡ must_register prometheus (vecs ds) (some r') =
        ap (must_register prometheus (vecs ds)) e in
      rw step (must_register-Fine ds r' (rw ns h))

  foreign :
      (r : R) (name : String)
      → must_register prometheus (built_in prometheus) (some prometheus.new_registry) ≡ some r
      → (starts_with name "go_" || starts_with name "process_") ≡ false
      → taken (laws.names r) name ≡ false
  foreign r name e own = elim (Bool-cases (taken (laws.names r) name)) [
    | inl there ↦ cc (laws.built_in_names r name e there, own)
    | inr new ↦ new
  ]

  -- `NewRegistry` does not panic: no name of the program's metrics is taken, by another of them or by
  -- the built-in collectors.
  pub new_registry-Fine : Fine (new_registry prometheus)
  unfolding new_registry
  new_registry-Fine =
      let (r, e) = laws.built_in_fits in
      let new =
        λ (name : String) (own : (starts_with name "go_" || starts_with name "process_") ≡ false).
          foreign r name e own in
      rw e (
        must_register-Fine (http_requests_total ∷ http_request_duration ∷ rate_limit_decisions ∷ [])
          r
          (
            new "http_requests_total" refl,
            (new "http_request_duration_seconds" refl, (new "ratelimit_decisions_total" refl, tt)),
          ))

  count-Fine : (c : Count) (r : R) → Fine (count prometheus (app_metrics prometheus) c r)
  unfolding count
  count-Fine (request req route reply) r =
      let labels : List String = req.method ∷ route_label route ∷ itoa reply.status ∷ [] in
      let (r', e) = laws.records http_requests_total labels r refl in
      let (r'', e') = laws.records http_request_duration labels r' refl in rw (e, e') tt
  count-Fine allowed r =
      let (r', e) = laws.records rate_limit_decisions ("allow" ∷ []) r refl in rw e tt
  count-Fine denied r =
      let (r', e) = laws.records rate_limit_decisions ("deny" ∷ []) r refl in rw e tt
  count-Fine failed_open r =
      let (r', e) = laws.records rate_limit_decisions ("error" ∷ []) r refl in rw e tt

  count_all-Fine :
      (cs : List Count) (r : Option R)
      → Fine r
      → Fine (count_all prometheus (app_metrics prometheus) cs r)
  unfolding count_all
  count_all-Fine [] r h = h
  count_all-Fine (c ∷ cs) none h = elim h [ ]
  count_all-Fine (c ∷ cs) (some r) h =
      count_all-Fine cs (count prometheus (app_metrics prometheus) c r) (count-Fine c r)

  -- The metrics never panic: `NewRegistry` registers its metrics, and on the registry that it returns
  -- the middlewares can count any requests with any replies and any answers of the limiter, in any
  -- order.
  pub metrics_never_panic :
      (cs : List Count)
      → Fine (count_all prometheus (app_metrics prometheus) cs (new_registry prometheus))
  metrics_never_panic cs = count_all-Fine cs (new_registry prometheus) new_registry-Fine
