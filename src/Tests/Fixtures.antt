-- ===== src/Tests/Fixtures.antt =====
-- A database in memory, a breaker that never forgets and a hash, for the runs.
use production_ready_url_sho.Common.{
  ℕ, suc, ltb, leb, ◌≡◌, ◌⊎◌, arith, refl, inl, String, Bool, true, false, none, List, [], ◌∷◌,
  chars, if◌then◌else◌,
}
use production_ready_url_sho.Failure.{GoError, sentinel, open_state, too_many_requests, ok, err}
use production_ready_url_sho.Model.{Stamp}
use production_ready_url_sho.Sql.{execute, Tables}
use production_ready_url_sho.Dbtx.{Dbtx, Router}
use production_ready_url_sho.Breaker.{BreakerSettings, default_breaker_settings, new_breaker}
use production_ready_url_sho.Breaker.Gobreaker.{
  Gobreaker, Counts, Settings, State, closed, half_open, opened, Admission, admitted, rejected,
  no_counts, on_request, on_success, on_failure,
}
use production_ready_url_sho.Breaker.Laws.{GobreakerLaws, ProbeLaws}
use production_ready_url_sho.Database.{Pools, pool_router}
use production_ready_url_sho.Database.Pooled.{PoolLaws}
use production_ready_url_sho.Database.Pooled.Routed.{IsFair, pool_router-RouterLaws}
use production_ready_url_sho.Repository.Postgres.{delivered, ran, RouterLaws}

-- A hash that tells URLs apart by their length, and one that does not tell them apart.
abbrev pub length_hash : String → List ℕ
length_hash url = chars url ∷ []

abbrev pub constant_hash : String → List ℕ
constant_hash url = 7 ∷ []

abbrev pub stamp : Stamp
stamp = record { now = 5_000_000_000; uuid = "u1" }

abbrev pub log_stamp : Stamp
log_stamp = record { now = 5_000_000_001; uuid = "r1" }

-- A pool that runs every statement.
abbrev pub memory : Dbtx Tables
memory = record { exec = λ ctx cmd t. execute cmd t; query = λ ctx q t. (ok (delivered q t), t) }

abbrev pub memory_laws : PoolLaws memory
memory_laws = record {
  tables = λ t. t;
  IsCalm = λ t. Unit {0};
  exec_honest = λ ctx cmd t. ran refl refl;
  query_pure = λ ctx q t. refl;
  exec_calm = λ ctx cmd t h. (refl, refl, tt);
  query_calm = λ ctx q t h. (refl, tt);
}

-- A pool that is down.
abbrev pub outage : GoError
outage = GoError.other "connection refused"

abbrev pub dead_pool : Dbtx Tables
dead_pool = record { exec = λ ctx cmd t. (err outage, t); query = λ ctx q t. (err outage, t) }

pub record Cell : Type 0 where
  pub settings : Settings
  pub mode : State
  pub counts : Counts

abbrev pub admit_in : State → Cell → Admission × Cell
admit_in closed c = (admitted, record c { counts = on_request c.counts })
admit_in half_open c =
    if ltb c.counts.requests c.settings.max_requests
    then (admitted, record c { counts = on_request c.counts })
    else (rejected (sentinel too_many_requests), c)
admit_in opened c = (rejected (sentinel open_state), c)

abbrev pub fail_in : State → Cell → Cell
fail_in closed c =
    if c.settings.ready_to_trip (on_failure c.counts)
    then record c { mode = opened }
    else record c { counts = on_failure c.counts }
fail_in half_open c = record c { mode = opened }
fail_in opened c = c

abbrev pub succeed_in : State → Cell → Cell
succeed_in half_open c =
    if leb c.settings.max_requests (suc c.counts.consecutive_successes)
    then record c { mode = closed; counts = no_counts }
    else record c { counts = on_success c.counts }
succeed_in closed c = record c { counts = on_success c.counts }
succeed_in opened c = c

abbrev pub report_in : Bool → Cell → Cell
report_in true c = succeed_in c.mode c
report_in false c = fail_in c.mode c

-- A breaker whose interval and timeout never run out.
abbrev pub cells : Gobreaker Cell
cells = record {
  new_circuit_breaker = λ s. record { settings = s; mode = closed; counts = no_counts };
  settings = λ c. c.settings;
  state = λ c. (c.mode, c);
  admit = λ c. admit_in c.mode c;
  report = report_in;
}

pub cells_rejection :
    (m : State) (c : Cell) (e : GoError)
    → (admit_in m c).0 ≡ rejected e
    → (e ≡ sentinel open_state) ⊎ (e ≡ sentinel too_many_requests)
cells_rejection closed c e h = cc
cells_rejection half_open c e h = ground arith
cells_rejection opened c e h = inl cc

pub settings_admit_in : (m : State) (c : Cell) → (admit_in m c).1.settings ≡ c.settings
settings_admit_in closed c = refl
settings_admit_in half_open c = ground arith
settings_admit_in opened c = refl

pub settings_succeed_in : (m : State) (c : Cell) → (succeed_in m c).settings ≡ c.settings
settings_succeed_in closed c = refl
settings_succeed_in half_open c = ground arith
settings_succeed_in opened c = refl

pub settings_fail_in : (m : State) (c : Cell) → (fail_in m c).settings ≡ c.settings
settings_fail_in closed c = ground arith
settings_fail_in half_open c = refl
settings_fail_in opened c = refl

pub settings_report_in : (b : Bool) (c : Cell) → (report_in b c).settings ≡ c.settings
settings_report_in true c = settings_succeed_in c.mode c
settings_report_in false c = settings_fail_in c.mode c

abbrev pub cells_laws : GobreakerLaws cells
cells_laws = record {
  mode = λ c. c.mode;
  counts = λ c. c.counts;
  IsSteady = λ c. Unit {0};
  settings_new = λ s. refl;
  mode_new = λ s. refl;
  counts_new = λ s. refl;
  settings_admit = λ c. settings_admit_in c.mode c;
  settings_report = settings_report_in;
  steady_admit = λ c h. tt;
  steady_report = λ b c h. tt;
  state_mode = λ c h. refl;
  rejection = λ c e h. cells_rejection c.mode c e h;
  closed_admits = λ c h. rw h refl;
  closed_stays = λ c st h. rw h refl;
  request_counted = λ c st h. rw h refl;
  opened_rejects = λ c st h. rw h refl;
  opened_stays = λ c st h. rw h refl;
  failure_trips = λ c st h t. rw (h, t) refl;
  failure_counted = λ c st h t. rw (h, t) (refl, refl);
  success_counted = λ c st h. rw h (refl, refl);
}

pub cells_probes : ProbeLaws cells cells_laws
cells_probes = record {
  probe_admitted = λ c st h room. rw h (ground (arith, h));
  probe_limited = λ c st h busy. rw h (ground arith);
  probe_succeeded = λ c st h enough. rw h (ground arith);
  probe_failed = λ c st h. rw h refl;
}

abbrev pub settings : BreakerSettings
settings = default_breaker_settings "primary"

-- The router of the program over the pool in memory, with no replica.
abbrev pub Server : Type 0
Server = Pools Cell Tables

abbrev pub server_router : Router Server
server_router = pool_router cells memory

abbrev pub server_laws : RouterLaws server_router
server_laws = pool_router-RouterLaws cells cells_laws settings memory memory_laws

abbrev pub new_cell : Cell
new_cell = cells.new_circuit_breaker (new_breaker settings)

abbrev pub server : Tables → Server
server t = record { primary = (new_cell, t); replica = none }

pub server-IsFair : (t : Tables) → IsFair cells cells_laws settings memory memory_laws (server t)
server-IsFair t = record {
  ready = record { steady = tt; configured = refl; closed_now = refl };
  calm = tt;
  alone = refl;
}
