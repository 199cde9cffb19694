-- ===== src/Platform/Metrics.antt =====
-- internal/platform/observability/metrics.go: `NewRegistry` and `AppMetrics`, and the calls by which
-- the middlewares of internal/api/middleware count. Prometheus is the parameter `Prometheus`; where
-- the library panics, the result is `none`.
pub mod Starting
use production_ready_url_sho.Common.{String, Option, none, some, List, [], ◌∷◌}
use production_ready_url_sho.Keygen.Decimal.{itoa}
use production_ready_url_sho.Http.{Reply, Request}
use production_ready_url_sho.Http.Limiting.{route_label}

pub data Kind : Type 0 where
  counter_vec : Kind
  -- With the default buckets.
  histogram_vec : Kind

-- What a vector is made from.
pub record Desc : Type 0 where
  pub kind : Kind
  pub name : String
  pub help : String
  pub labels : List String

pub record Prometheus (C R : Type 0) : Type 0 where
  pub new_registry : R
  pub go_collector : C
  pub process_collector : C
  pub vec : Desc → C
  pub register : C → R → Option R
  -- `WithLabelValues` and then `Inc` or `Observe`
  pub record_values : C → (values : List String) → R → Option R

abbrev request_labels : List String
request_labels = "method" ∷ "route" ∷ "status" ∷ []

abbrev pub http_requests_total : Desc
http_requests_total = record {
  kind = counter_vec;
  name = "http_requests_total";
  help = "Total HTTP requests processed, labeled by method, route template and status.";
  labels = request_labels;
}

abbrev pub http_request_duration : Desc
http_request_duration = record {
  kind = histogram_vec;
  name = "http_request_duration_seconds";
  help = "HTTP request latency in seconds.";
  labels = request_labels;
}

abbrev pub rate_limit_decisions : Desc
rate_limit_decisions = record {
  kind = counter_vec;
  name = "ratelimit_decisions_total";
  help = "Rate limit middleware decisions: allow, deny, or error (fail-open).";
  labels = "decision" ∷ [];
}

pub record AppMetrics (C : Type 0) : Type 0 where
  pub http_requests_total : C
  pub http_request_duration : C
  pub rate_limit_decisions : C

-- What a middleware counts.
pub data Count : Type 0 where
  -- The end of a request, in `HTTPMetrics`.
  request : Request → (route : String) → Reply → Count
  -- An answer of the limiter, in `RateLimit`: allow, deny or error.
  allowed denied failed_open : Count

module _ {C R : Type 0} (prometheus : Prometheus C R) where
  abbrev on : Option R → (R → Option R) → Option R
  on none f = none
  on (some r) f = f r

  -- `MustRegister`
  unfoldable pub must_register : List C → Option R → Option R
  must_register [] r = r
  must_register (c ∷ cs) r = must_register cs (on r (prometheus.register c))

  abbrev pub app_metrics : AppMetrics C
  app_metrics = record {
    http_requests_total = prometheus.vec http_requests_total;
    http_request_duration = prometheus.vec http_request_duration;
    rate_limit_decisions = prometheus.vec rate_limit_decisions;
  }

  abbrev pub built_in : List C
  built_in = prometheus.go_collector ∷ prometheus.process_collector ∷ []

  abbrev pub custom : AppMetrics C → List C
  custom m = m.http_requests_total ∷ m.http_request_duration ∷ m.rate_limit_decisions ∷ []

  -- The metrics that come with it are `app_metrics`.
  unfoldable pub new_registry : Option R
  unfolding must_register
  new_registry =
      must_register (custom app_metrics) (must_register built_in (some prometheus.new_registry))

  unfoldable pub count : AppMetrics C → Count → R → Option R
  count m (request req route reply) r =
      let labels = req.method ∷ route_label route ∷ itoa reply.status ∷ [] in
      on (prometheus.record_values m.http_requests_total labels r)
        (prometheus.record_values m.http_request_duration labels)
  count m allowed r = prometheus.record_values m.rate_limit_decisions ("allow" ∷ []) r
  count m denied r = prometheus.record_values m.rate_limit_decisions ("deny" ∷ []) r
  count m failed_open r = prometheus.record_values m.rate_limit_decisions ("error" ∷ []) r

  unfoldable pub count_all : AppMetrics C → List Count → Option R → Option R
  unfolding count
  count_all m [] r = r
  count_all m (c ∷ cs) r = count_all m cs (on r (count m c))
