-- ===== src/Tests/Breaking.antt =====
-- The breakers before a pool that is down, and the two sides of the router.
use production_ready_url_sho.Common.{◌≡◌, ◌≤◌, refl, some, List, [], ◌∷◌, map}
use production_ready_url_sho.Failure.{ok, err}
use production_ready_url_sho.Context.{background}
use production_ready_url_sho.Sql.{
  Tables, empty_tables, Command, update_last_used, Query, select_by_short_key,
}
use production_ready_url_sho.Dbtx.{Dbtx, Rows}
use production_ready_url_sho.Breaker.Gobreaker.{closed}
use production_ready_url_sho.Database.Scanning.{Read, reads, failing_scans_never_open}
use production_ready_url_sho.Tests.Fixtures.{outage, memory, cells, cells_laws, settings, new_cell}

abbrev pub command : Command
command = update_last_used 5 "u1"

abbrev pub query : Query
query = select_by_short_key "key"

abbrev no_items : Rows
no_items = record { items = []; failure = some outage }

-- A pool whose rows break off.
abbrev broken_rows : Dbtx Tables
broken_rows = record { exec = memory.exec; query = λ ctx q t. (ok no_items, t) }

-- More reads than the failures in a row that open the breaker.
abbrev many : List Read
many =
    (background, query)
    ∷ (background, query)
    ∷ (background, query)
    ∷ (background, query)
    ∷ (background, query)
    ∷ (background, query)
    ∷ (background, query)
    ∷ []

failing_scans_never_open_example :
    let (out, (c, s)) = reads cells broken_rows many (new_cell, empty_tables) in
    (out ≡ map (λ r. err outage) many)
    × (cells_laws.mode c ≡ closed)
    × ((cells_laws.counts c).consecutive_failures
        ≤ (cells_laws.counts new_cell).consecutive_failures)
    × (s ≡ empty_tables)
failing_scans_never_open_example =
    failing_scans_never_open cells cells_laws settings broken_rows many new_cell empty_tables outage
      refl tt refl (λ ctx q t. refl)
