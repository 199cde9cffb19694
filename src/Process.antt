-- ===== src/Process.antt =====
-- cmd/api/main.go: `run`, from the configuration to the exit code. What it starts and stops are the
-- parameter `Parts`; logs are not modelled. What the goroutine of the server and `run` do to one
-- another is in Threads.
pub mod Shutdown
pub mod Threads
use Prim.Native.String.{◌++◌}
use text.Mathlib.Text.{starts_with}
use production_ready_url_sho.Common.{
  ℕ, suc, ◌*◌, String, Option, none, some, ℤ, pos, negsuc, ◌==◌, if◌then◌else◌,
}
use production_ready_url_sho.Failure.{GoError, Result, ok, err}
use production_ready_url_sho.Context.{Ctx, background, second, with_timeout}
use production_ready_url_sho.Keygen.Decimal.{itoa}
use production_ready_url_sho.Platform.Config.{Config}

-- Where the debug server's mux sends a request.
pub data DebugRoute : Type 0 where
  profiles metrics redirected missing : DebugRoute

-- `debugMux` on a clean path: the pattern that ends in a slash takes the paths below it, and the path
-- without the slash is redirected there; the other pattern takes one path.
unfoldable pub debug_mux : String → DebugRoute
debug_mux path =
    if path == "/metrics"
    then metrics
    else if starts_with path "/debug/pprof/"
    then profiles
    else if path == "/debug/pprof"
    then redirected
    else missing

pub record Parts (S : Type 0) : Type 0 where
  pub load_config : S → Result Config × S
  pub init_logger : (level : String) → S → S
  pub set_block_profile_rate : ℕ → S → S
  pub set_mutex_profile_fraction : ℕ → S → S
  -- `signal.NotifyContext`, and the `stop` that it returns.
  pub notify_context : S → S
  pub stop : S → S
  -- With the fields of the configuration that `TracingConfig` takes.
  pub init_tracing : Config → S → Option GoError × S
  pub new_router : (database_url read_database_url : String) → S → Option GoError × S
  pub new_redis_client : (redis_url : String) → S → Option GoError × S
  pub new_services : Config → S → Option GoError × S
  -- The three goroutines.
  pub start_cleanup_cron : Config → S → S
  pub start_debug_server : (addr : String) → (mux : String → DebugRoute) → S → S
  pub start_server : (addr : String) → S → S
  -- The `select`: the server's error, or `none` after a signal or the server's own close.
  pub select : S → Option GoError × S
  pub shutdown_server : Ctx → S → Option GoError × S
  pub shutdown_tracer : Ctx → S → Option GoError × S
  pub shutdown_debug_server : Ctx → S → Option GoError × S
  pub close_redis : S → S
  pub close_router : S → S

abbrev pub or_exit : {S : Type 0} → (S → ℕ × S) → Option GoError × S → ℕ × S
or_exit next (none, s) = next s
or_exit next (some e, s) = (1, s)

abbrev pub defer : {S : Type 0} → (S → S) → ℕ × S → ℕ × S
defer f (code, s) = (code, f s)

abbrev code_of : Option GoError → ℕ
code_of none = 0
code_of (some e) = 1

-- `fmt.Sprintf(":%d", port)`
unfoldable pub addr : ℤ → String
addr (pos port) = ":" ++ itoa port
addr (negsuc n) = ":-" ++ itoa (suc n)

abbrev shutdown_timeout : ℕ
shutdown_timeout = 10 * second

module _ {S : Type 0} (parts : Parts S) where
  -- The three are shut down in this order, under one context that is not derived from the root;
  -- their errors are logged and dropped.
  unfoldable pub shut_down : S → S
  shut_down s =
      let ctx = with_timeout background shutdown_timeout in
      let s' = (parts.shutdown_server ctx s).1 in
      let s'' = (parts.shutdown_tracer ctx s').1 in (parts.shutdown_debug_server ctx s'').1

  unfoldable pub serve_until : Config → S → ℕ × S
  unfolding addr shut_down debug_mux
  serve_until cfg s =
      let running = parts.start_server (addr cfg.server_port) (
        parts.start_debug_server (addr cfg.pprof_port) debug_mux
          (parts.start_cleanup_cron cfg s)) in
      let (e, s') = parts.select running in (code_of e, shut_down s')

  unfoldable pub with_redis : Config → S → ℕ × S
  unfolding serve_until
  with_redis cfg s = defer parts.close_redis (or_exit (serve_until cfg) (parts.new_services cfg s))

  unfoldable pub with_router : Config → S → ℕ × S
  unfolding with_redis
  with_router cfg s =
      defer parts.close_router (or_exit (with_redis cfg) (parts.new_redis_client cfg.redis_url s))

  unfoldable pub with_tracing : Config → S → ℕ × S
  unfolding with_router
  with_tracing cfg s =
      or_exit (with_router cfg) (parts.new_router cfg.database_url cfg.read_database_url s)

  -- Every blocking event is sampled, and SIGINT and SIGTERM are caught.
  abbrev pub watching : Config → S → S
  watching cfg s = parts.notify_context (
      parts.set_mutex_profile_fraction 1
        (parts.set_block_profile_rate 1 (parts.init_logger cfg.log_level s)))

  unfoldable pub configured : Result Config × S → ℕ × S
  unfolding with_tracing
  configured (err e, s) = (1, s)
  configured (ok cfg, s) =
      defer parts.stop (or_exit (with_tracing cfg) (parts.init_tracing cfg (watching cfg s)))

  unfoldable pub run : S → ℕ × S
  unfolding configured
  run s = configured (parts.load_config s)
