-- ===== src/Lib.antt =====
-- Verification of the URL shortener server.
--
-- A request passes the engine of internal/api/router.go: metrics, client address, rate limiter,
-- handler. The handlers call the URL service, the service calls two repositories, and these ask a
-- router for the pool to use, which is reached through a circuit breaker. A cron retires unused URLs.
--
-- What models what:
--   Failure, Context, Model   errors as values, internal/contextUtil/context.go, internal/model
--   Keygen                    shortKeyFromURL of internal/service/url_service_impl.go
--   Sql                       the statements of internal/repository and the constraints of migrations
--   Dbtx, Repository          internal/repository: DBTX, Router, and both repositories
--   Breaker                   internal/platform/databse/breaker.go
--   Database                  internal/platform/databse/router.go: breakerDB, Reader, Writer
--   Service                   ShortenURL, Redirect and the goroutine of Redirect
--   Cleanup                   internal/service/cleanup_service_impl.go
--   RateLimit                 internal/service/ratelimit_service.go
--   Http                      internal/api: response, handlers, middleware and router.go
--   Wiring                    internal/service/service.go, and the way from POST to GET
--   Leader, Cron              internal/platform/leader/locker.go and internal/cron/cleanup_cron.go
--   Startup                   pool.go and NewRouter of internal/platform/databse
--   Process                   run of cmd/api/main.go; Threads: the server's goroutine, serverErr and select
--   Platform                  internal/platform: config, logger, observability and redisclient
--   Tests                     runs on concrete inputs
--
-- State is passed explicitly: an operation takes a state and returns its result and the next state.
-- A service is generic in the state, and what it needs of the state below is a record of operations
-- (UrlRepository, Router, Dbtx, Redis, Gobreaker), so that the same definitions run on the tables
-- and on two pools behind breakers. An error is a value of GoError: a sentinel, a Postgres error, or
-- a wrapped one, and errors.Is and errors.As walk it.
--
-- Third-party code is a parameter with named laws: gobreaker (Breaker/Gobreaker, Breaker/Laws),
-- Postgres behind a pool or a router (Database/Pooled, Repository/Postgres) and its advisory locks
-- (Leader), Redis (RateLimit/Quota, Platform/RedisClient), viper, OpenTelemetry and Prometheus (the
-- modules of Platform), SHA-256 (any function), gin's matching of routes and the redirects that it
-- answers by itself. Database/Pooled/Routed relates the router of the program to the laws that the
-- repositories rely on, and Database/Pooled/Replicated does so where reads go to a replica that may
-- lag (Repository/Copied). Each set of laws has an instance in Tests.
--
-- The list of a table's rows is a representation: Repository/Unordered takes the quotient of the
-- tables by the order of their rows, on which the repositories are defined again, and
-- Service/Unordered compares the program's runs on two orders. Http/Engine/Passing and
-- Wiring/EndToEnd put the engine, the handlers, the service and the database together.
-- Leader/Adequacy runs `Run` between the steps of other replicas.
--
-- Loops: the collision loop of ShortenURL runs on the number of rounds left, six at its start, as in
-- the source; writing a key runs on the number of missing characters. No fuel is needed elsewhere.
--
-- Numbers: times are nanoseconds, and durations that the configuration may make negative are
-- integers. Counters and times are taken to be below 2 ^ 63, so no wrap-around is modelled (see
-- RateLimit/Overflow); the float of an error rate is compared as a fraction.
--
-- Not modelled: what is logged and traced, the duration histogram, JSON and validation by
-- gin, the handlers of the profiles and of the metrics, and the generated API documentation.
pub mod Common
pub mod Failure
pub mod Context
pub mod Model
pub mod Keygen
pub mod Sql
pub mod Dbtx
pub mod Breaker
pub mod Database
pub mod Repository
pub mod Service
pub mod Cleanup
pub mod RateLimit
pub mod Http
pub mod Wiring
pub mod Leader
pub mod Cron
pub mod Startup
pub mod Process
pub mod Platform
pub mod Tests
