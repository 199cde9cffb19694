-- ===== src/Process/Shutdown.antt =====
-- What `run` leaves behind.
use production_ready_url_sho.Common.{ℕ, suc, String, ◌≡◌, ◌∙◌, refl, ap, Option, none, some}
use production_ready_url_sho.Failure.{GoError, Result, ok, err}
use production_ready_url_sho.Context.{Ctx}
use production_ready_url_sho.Platform.Config.{Config}
use production_ready_url_sho.Process.{
  Parts, DebugRoute, watching, or_exit, shut_down, serve_until, with_redis, with_router,
  with_tracing, configured, run,
}

-- What is open: routers, Redis clients and signal handlers.
pub record Open : Type 0 where
  pub routers : ℕ
  pub clients : ℕ
  pub handlers : ℕ

abbrev pub add_router : Open → Open
add_router o = record o { routers = suc o.routers }

abbrev pub add_client : Open → Open
add_client o = record o { clients = suc o.clients }

abbrev pub add_handler : Open → Open
add_handler o = record o { handlers = suc o.handlers }

abbrev opened_after : (Open → Open) → Option GoError → Open → Open
opened_after add none o = add o
opened_after add (some e) o = o

-- `held` counts what is open, each kind by itself: an open adds one of its kind, and a close takes one
-- of its kind away.
pub record Holdings {S : Type 0} (parts : Parts S) : Type 0 where
  pub held : S → Open
  pub load : (s : S) → held (parts.load_config s).1 ≡ held s
  pub logger : (level : String) (s : S) → held (parts.init_logger level s) ≡ held s
  pub block_rate : (n : ℕ) (s : S) → held (parts.set_block_profile_rate n s) ≡ held s
  pub mutex_fraction : (n : ℕ) (s : S) → held (parts.set_mutex_profile_fraction n s) ≡ held s
  pub notified : (s : S) → held (parts.notify_context s) ≡ add_handler (held s)
  pub stops : (s : S) (o : Open) → held s ≡ add_handler o → held (parts.stop s) ≡ o
  pub trace : (cfg : Config) (s : S) → held (parts.init_tracing cfg s).1 ≡ held s
  pub router :
      (url read : String) (s : S)
      → held (parts.new_router url read s).1
        ≡ opened_after add_router (parts.new_router url read s).0 (held s)
  pub redis :
      (url : String) (s : S)
      → held (parts.new_redis_client url s).1
        ≡ opened_after add_client (parts.new_redis_client url s).0 (held s)
  pub services : (cfg : Config) (s : S) → held (parts.new_services cfg s).1 ≡ held s
  pub cron : (cfg : Config) (s : S) → held (parts.start_cleanup_cron cfg s) ≡ held s
  pub debug_started :
      (a : String) (mux : String → DebugRoute) (s : S)
      → held (parts.start_debug_server a mux s) ≡ held s
  pub server_started : (a : String) (s : S) → held (parts.start_server a s) ≡ held s
  pub selected : (s : S) → held (parts.select s).1 ≡ held s
  pub server : (ctx : Ctx) (s : S) → held (parts.shutdown_server ctx s).1 ≡ held s
  pub tracer : (ctx : Ctx) (s : S) → held (parts.shutdown_tracer ctx s).1 ≡ held s
  pub debug : (ctx : Ctx) (s : S) → held (parts.shutdown_debug_server ctx s).1 ≡ held s
  pub closes_redis : (s : S) (o : Open) → held s ≡ add_client o → held (parts.close_redis s) ≡ o
  pub closes_router : (s : S) (o : Open) → held s ≡ add_router o → held (parts.close_router s) ≡ o

module _ {S : Type 0} (parts : Parts S) (h : Holdings parts) where
  or_exit-held :
      (next : S → ℕ × S) (x : Option GoError × S) (n : Open)
      → h.held x.1 ≡ n
      → ((s : S) → h.held (next s).1 ≡ h.held s)
      → h.held (or_exit next x).1 ≡ n
  or_exit-held next (none, s) n e k = k s ∙ e
  or_exit-held next (some x, s) n e k = e

  serve_until-held : (cfg : Config) (s : S) → h.held (serve_until parts cfg s).1 ≡ h.held s
  unfolding serve_until shut_down
  serve_until-held cfg s =
      h.debug _ _
      ∙ h.tracer _ _
      ∙ h.server _ _
      ∙ h.selected _
      ∙ h.server_started _ _
      ∙ h.debug_started _ _ _
      ∙ h.cron cfg s

  -- Once Redis is there: its client is closed at the end.
  with_redis-held :
      (cfg : Config) (s : S) (n : Open)
      → h.held s ≡ add_client n
      → h.held (with_redis parts cfg s).1 ≡ n
  unfolding with_redis
  with_redis-held cfg s n e = h.closes_redis _ n (
      or_exit-held (serve_until parts cfg) (parts.new_services cfg s) (add_client n)
        (h.services cfg s ∙ e) (serve_until-held cfg))

  -- After a step that opens something, with what follows closing it.
  opened_step :
      (add : Open → Open) (next : S → ℕ × S) (x : Option GoError × S) (n : Open)
      → ((s : S) → h.held s ≡ add n → h.held (next s).1 ≡ n)
      → h.held x.1 ≡ opened_after add x.0 n
      → h.held (or_exit next x).1 ≡ n
  opened_step add next (none, s) n k e = k s e
  opened_step add next (some x, s) n k e = e

  with_router-held :
      (cfg : Config) (s : S) (n : Open)
      → h.held s ≡ add_router n
      → h.held (with_router parts cfg s).1 ≡ n
  unfolding with_router
  with_router-held cfg s n e =
      let x = parts.new_redis_client cfg.redis_url s in
      h.closes_router _ n (
        opened_step add_client (with_redis parts cfg) x (add_router n)
          (λ t. with_redis-held cfg t (add_router n))
          (h.redis cfg.redis_url s ∙ ap (opened_after add_client x.0) e))

  with_tracing-held : (cfg : Config) (s : S) → h.held (with_tracing parts cfg s).1 ≡ h.held s
  unfolding with_tracing
  with_tracing-held cfg s =
      opened_step add_router (with_router parts cfg)
        (parts.new_router cfg.database_url cfg.read_database_url s) (h.held s)
        (λ t. with_router-held cfg t (h.held s)) (h.router cfg.database_url cfg.read_database_url s)

  watching-held : (cfg : Config) (s : S) → h.held (watching parts cfg s) ≡ add_handler (h.held s)
  watching-held cfg s =
      h.notified _
      ∙ ap add_handler (h.mutex_fraction _ _ ∙ h.block_rate _ _ ∙ h.logger cfg.log_level s)

  configured-held : (x : Result Config × S) → h.held (configured parts x).1 ≡ h.held x.1
  unfolding configured
  configured-held (err e, s) = refl
  configured-held (ok cfg, s) = h.stops _ (h.held s) (
      or_exit-held (with_tracing parts cfg) (parts.init_tracing cfg (watching parts cfg s))
        (add_handler (h.held s)) (h.trace cfg _ ∙ watching-held cfg s) (with_tracing-held cfg))

  -- Wherever `run` returns, on a failed step of the start, on a crash of the server or after a
  -- signal, and whatever fails in the shutdown, the router and the Redis client that it opened are
  -- closed, and its signal handler is released.
  pub run_closes : (s : S) → h.held (run parts s).1 ≡ h.held s
  unfolding run
  run_closes s = configured-held (parts.load_config s) ∙ h.load s
