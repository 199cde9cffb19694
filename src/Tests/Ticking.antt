-- ===== src/Tests/Ticking.antt =====
-- The cron over tables in memory, at ticks with and without the lock.
use production_ready_url_sho.Common.{◌≡◌, refl, Bool, true, false, some, List, [], ◌∷◌, pos}
use production_ready_url_sho.Failure.{ok}
use production_ready_url_sho.Context.{background}
use production_ready_url_sho.Model.{new_url}
use production_ready_url_sho.Sql.{Tables}
use production_ready_url_sho.Sql.Selecting.{find_live}
use production_ready_url_sho.Repository.Calm.{Simulates, UrlRefines, table_urls}
use production_ready_url_sho.Repository.{UrlRepository}
use production_ready_url_sho.Leader.{LockPool, run}
use production_ready_url_sho.Cleanup.{cutoff_time, run_cleanup}
use production_ready_url_sho.Cron.{Event, tick, done, on_tick, loop}
use production_ready_url_sho.Cron.Cleaning.{GateLaws, survives, cron_cleans}
use production_ready_url_sho.Tests.Fixtures.{stamp, outage}

-- The tables, and the answers that the gate will give, the next first.
pub record Gated : Type 0 where
  tables : Tables
  answers : List Bool

abbrev next_answer : List Bool → Bool × List Bool
next_answer [] = (false, [])
next_answer (b ∷ bs) = (b, bs)

abbrev gate_pool : LockPool Gated
gate_pool = record {
  acquire = λ ctx s. (ok 1, s);
  try_advisory_lock =
      λ ctx c key s. let (b, bs) = next_answer s.answers in (ok b, record s { answers = bs });
  advisory_unlock = λ c key s. (some outage, s);
  release = λ c s. s;
}

abbrev behind_gate : {A : Type 0} → (Tables → A × Tables) → Gated → A × Gated
behind_gate f s = let (a, t) = f s.tables in (a, record s { tables = t })

abbrev gated_urls : UrlRepository Gated
gated_urls = record {
  create = λ ctx u. behind_gate (table_urls.create ctx u);
  get_by_short_key = λ ctx key. behind_gate (table_urls.get_by_short_key ctx key);
  update_last_used = λ ctx now id. behind_gate (table_urls.update_last_used ctx now id);
  delete_unused_since =
      λ ctx now cutoff. behind_gate (table_urls.delete_unused_since ctx now cutoff);
}

behind_gate-Simulates :
    {A : Type 0} (f : Tables → A × Tables)
    → Simulates (λ (s : Gated). s.tables) (λ s. Unit {0}) (behind_gate f) f
behind_gate-Simulates f = record { result = λ s h. refl; after = λ s h. refl; keeps = λ s h. tt }

abbrev gated_refines : UrlRefines (λ (s : Gated). s.tables) (λ s. Unit {0}) gated_urls table_urls
gated_refines = record {
  create = λ ctx u. behind_gate-Simulates (table_urls.create ctx u);
  get = λ ctx key. behind_gate-Simulates (table_urls.get_by_short_key ctx key);
  update = λ ctx now id. behind_gate-Simulates (table_urls.update_last_used ctx now id);
  delete = λ ctx now cutoff. behind_gate-Simulates (table_urls.delete_unused_since ctx now cutoff);
}

abbrev gate_laws : GateLaws (λ (s : Gated). s.tables) (λ s. Unit {0}) gate_pool
gate_laws = record {
  acquire = λ ctx s h. (refl, tt);
  ask = λ ctx c key s h. (refl, tt);
  unlock = λ c key s h. (refl, tt);
  release = λ c s h. (refl, tt);
}

-- A row that was last used at 50, and a gate that is open at the second tick only.
abbrev gated : Gated
gated = record {
  tables = record {
    urls = record (new_url stamp "https://go.dev" "key") { last_used_at = 50 } ∷ [];
    incoming_requests = [];
  };
  answers = false ∷ true ∷ [];
}

abbrev ticks : List Event
ticks = tick 200 201 ∷ tick 100 101 ∷ done ∷ []

cron_cleans_example :
    find_live "key"
      (loop gate_pool (run_cleanup gated_urls (pos 60)) background ticks gated).tables.urls
    ≡ survives (40 ∷ []) (find_live "key" gated.tables.urls)
unfolding cutoff_time find_live on_tick new_url run
cron_cleans_example =
    cron_cleans (λ (s : Gated). s.tables) (λ s. Unit {0}) gate_pool gate_laws gated_urls
      gated_refines (pos 60) background ticks gated "key" tt (tt, tt)
