-- ===== src/Tests/Starting.antt =====
-- The start and the stop of the program, counting what is open.
use production_ready_url_sho.Common.{
  ℕ, suc, ◌≡◌, ◌-◌, ◌∙◌, refl, ap, none, some, arith, Bool, true, false, ◌≤◌, ◌⊎◌, inl, inr, eqb,
  Bool-cases, if◌then◌else◌,
}
use production_ready_url_sho.Failure.{GoError, Result, ok, err}
use production_ready_url_sho.Context.{background}
use production_ready_url_sho.Startup.{Pgxpool, new_pool, new_router}
use production_ready_url_sho.Startup.Pools.{PoolBooks, Ledger, with_pool, new_router-Ledger}
use production_ready_url_sho.Process.{Parts, profiles, metrics, redirected, missing, debug_mux, run}
use production_ready_url_sho.Process.Shutdown.{
  Open, add_router, add_client, add_handler, Holdings, run_closes,
}
use production_ready_url_sho.Platform.Config.Defaults.{zero_config}
use production_ready_url_sho.Process.Threads.{
  closing, sending, stopping_server, returned, Threads, started, crash, sends, receives,
  stops_server, stops_tracer, stops_debug, Runs, start, then_step, then_event,
}
use production_ready_url_sho.Process.Threads.Coding.{Crashed, exit_code}
use production_ready_url_sho.Process.Threads.Ending.{Moves, Ended, Waits, run_ends}
use production_ready_url_sho.Tests.Fixtures.{outage, cells, settings}

-- A server that accepts connections and answers no ping; the state is the next pool's number and the
-- pools that are open, all of smaller numbers.
record Pools : Type 0 where
  next : ℕ
  live : ℕ → Bool
  below : (p : ℕ) → next ≤ p → live p ≡ false

grow :
    (f : ℕ → Bool) (n : ℕ)
    → ((p : ℕ) → n ≤ p → f p ≡ false)
    → (p : ℕ) → suc n ≤ p
    → with_pool n f p ≡ false
grow f n h p above =
    let other : eqb p n ≡ false = ground arith in rw other (h p (omega (arith, above)))

shrink :
    (f : ℕ → Bool) (n r : ℕ)
    → ((p : ℕ) → n ≤ p → f p ≡ false)
    → (p : ℕ) → n ≤ p
    → (if eqb p r then false else f p) ≡ false
shrink f n r h p above = elim (Bool-cases (eqb p r)) [
  | inl same ↦ rw same refl
  | inr other ↦ rw other (h p above)
]

abbrev one_more : Pools → Pools
one_more s = record {
  next = suc s.next;
  live = with_pool s.next s.live;
  below = grow s.live s.next s.below;
}

abbrev one_less : ℕ → Pools → Pools
one_less p s = record {
  next = s.next;
  live = λ q. if eqb q p then false else s.live q;
  below = shrink s.live s.next p s.below;
}

abbrev silent : Pgxpool Pools
silent = record {
  parse_config = λ dsn. none;
  new_with_config = λ ctx dsn s. (ok s.next, one_more s);
  ping = λ ctx p s. (some outage, s);
  close = one_less;
}

not_opened_silent :
    (s : Pools) (e : GoError) (q : ℕ)
    → ◌≡◌ {A = Result ℕ} (ok s.next) (err e)
    → (one_more s).live q ≡ s.live q
not_opened_silent s e q h = cc (h)

fresh_silent : (s : Pools) (p : ℕ) → ◌≡◌ {A = Result ℕ} (ok s.next) (ok p) → s.live p ≡ false
fresh_silent s p h = let same : s.next ≡ p = cc h in s.below p (omega (arith, same))

opened_silent :
    (s : Pools) (p q : ℕ)
    → ◌≡◌ {A = Result ℕ} (ok s.next) (ok p)
    → (one_more s).live q ≡ with_pool p s.live q
opened_silent s p q h = let same : s.next ≡ p = cc h in ap (λ n. with_pool n s.live q) same

abbrev silent_books : PoolBooks silent
silent_books = record {
  is_open = λ s q. s.live q;
  fresh = λ ctx dsn s p h. fresh_silent s p h;
  opened = λ ctx dsn s p q h. opened_silent s p q h;
  not_opened = λ ctx dsn s e q h. not_opened_silent s e q h;
  ping_keeps = λ ctx p s q. refl;
  closes = λ p s q. refl;
}

abbrev no_pools : Pools
no_pools = record { next = 3; live = λ q. false; below = λ p h. refl }

new_router-Ledger_example :
    Ledger cells silent silent_books background settings settings no_pools.live
      (new_pool silent background "postgres://primary" no_pools).0
      (new_router cells silent background settings settings "postgres://primary" "" no_pools)
new_router-Ledger_example =
    new_router-Ledger cells silent silent_books background settings settings "postgres://primary" ""
      no_pools

-- The pool whose ping failed is open, and the caller has only the error.
leaked :
    let (r, s) =
      new_router cells silent background settings settings "postgres://primary" "" no_pools in
    (r ≡ err outage) × (s.live 3 ≡ true)
unfolding new_router new_pool
leaked = (refl, refl)

-- A program whose server crashes, and whose shutdowns fail.
abbrev crashing : Parts Open
crashing = record {
  load_config = λ s. (ok zero_config, s);
  init_logger = λ level s. s;
  set_block_profile_rate = λ n s. s;
  set_mutex_profile_fraction = λ n s. s;
  notify_context = add_handler;
  stop = λ s. record s { handlers = s.handlers - 1 };
  init_tracing = λ cfg s. (none, s);
  new_router = λ url read s. (none, add_router s);
  new_redis_client = λ url s. (none, add_client s);
  new_services = λ cfg s. (none, s);
  start_cleanup_cron = λ cfg s. s;
  start_debug_server = λ a mux s. s;
  start_server = λ a s. s;
  select = λ s. (some outage, s);
  shutdown_server = λ ctx s. (some outage, s);
  shutdown_tracer = λ ctx s. (some outage, s);
  shutdown_debug_server = λ ctx s. (some outage, s);
  close_redis = λ s. record s { clients = s.clients - 1 };
  close_router = λ s. record s { routers = s.routers - 1 };
}

add_one_sub : (n : ℕ) → suc n - 1 ≡ n
add_one_sub n = omega arith

handlers_back : (o : Open) → record o { handlers = suc o.handlers - 1 } ≡ o
handlers_back o = ap (λ n. record o { handlers = n }) (add_one_sub o.handlers)

clients_back : (o : Open) → record o { clients = suc o.clients - 1 } ≡ o
clients_back o = ap (λ n. record o { clients = n }) (add_one_sub o.clients)

routers_back : (o : Open) → record o { routers = suc o.routers - 1 } ≡ o
routers_back o = ap (λ n. record o { routers = n }) (add_one_sub o.routers)

abbrev crashing_holdings : Holdings crashing
crashing_holdings = record {
  held = λ s. s;
  load = λ s. refl;
  logger = λ level s. refl;
  block_rate = λ n s. refl;
  mutex_fraction = λ n s. refl;
  notified = λ s. refl;
  stops = λ s o h. ap (λ (x : Open). record x { handlers = x.handlers - 1 }) h ∙ handlers_back o;
  trace = λ cfg s. refl;
  router = λ url read s. refl;
  redis = λ url s. refl;
  services = λ cfg s. refl;
  cron = λ cfg s. refl;
  debug_started = λ a mux s. refl;
  server_started = λ a s. refl;
  selected = λ s. refl;
  server = λ ctx s. refl;
  tracer = λ ctx s. refl;
  debug = λ ctx s. refl;
  closes_redis =
      λ s o h. ap (λ (x : Open). record x { clients = x.clients - 1 }) h ∙ clients_back o;
  closes_router =
      λ s o h. ap (λ (x : Open). record x { routers = x.routers - 1 }) h ∙ routers_back o;
}

abbrev none_open : Open
none_open = record { routers = 0; clients = 0; handlers = 0 }

run_closes_example : (run crashing none_open).1 ≡ none_open
run_closes_example = run_closes crashing crashing_holdings none_open

debug_routes :
    (debug_mux "/debug/pprof/heap" ≡ profiles)
    × (debug_mux "/metrics" ≡ metrics)
    × (debug_mux "/metrics/all" ≡ missing)
    × (debug_mux "/debug/pprof" ≡ redirected)
unfolding debug_mux
debug_routes = (refl, refl, refl, refl)

-- A crash, and the way out of `run` after it.
abbrev crashed : Threads
crashed = record started { server = sending outage }

abbrev received : Threads
received = record started { server = closing; main = stopping_server 1 }

abbrev over : Threads
over = record started { server = closing; main = returned 1 }

received-Runs : Runs started 3 received
received-Runs =
    then_step
      (then_step (then_event {u = started} {v = crashed} start (crash outage refl))
        (sends outage refl refl))
      (receives outage refl refl)

over-Runs : Runs started 6 over
over-Runs =
    then_step (then_step (then_step received-Runs (stops_server 1 refl)) (stops_tracer 1 refl))
      (stops_debug 1 refl)

exit_code_example :
    ((◌≡◌ {A = ℕ} 1 0) × (over.signaled ≡ true)) ⊎ ((◌≡◌ {A = ℕ} 1 1) × Crashed over-Runs)
exit_code_example = exit_code over 6 1 over-Runs refl

run_ends_example : (3 ≤ 8) × (Moves received ⊎ (Ended received ⊎ Waits received))
run_ends_example = run_ends received 3 received-Runs
