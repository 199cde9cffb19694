-- ===== src/Tests/Probing.antt =====
-- A replica that fails, and breakers whose timeout has run out.
use production_ready_url_sho.Common.{◌≡◌, refl, Option, none, some, List, [], ◌∷◌, arith}
use production_ready_url_sho.Failure.{is, as_pg, sentinel, circuit_open, ok, err, error_of}
use production_ready_url_sho.Context.{Ctx, background}
use production_ready_url_sho.Sql.{Tables, empty_tables, Query, execute}
use production_ready_url_sho.Dbtx.{Dbtx}
use production_ready_url_sho.Breaker.{should_count, new_breaker}
use production_ready_url_sho.Breaker.Gobreaker.{half_open, on_request}
use production_ready_url_sho.Database.{breaker_exec, breaker_query, surface, Pools}
use production_ready_url_sho.Database.Outage.{Outage}
use production_ready_url_sho.Database.Sides.{read, replica_pool}
use production_ready_url_sho.Database.Probing.{verdict, probe_decides}
use production_ready_url_sho.Database.Failover.{reads, outage_falls_back, half_open_read_fails}
use production_ready_url_sho.Repository.Postgres.{delivered}
use production_ready_url_sho.Tests.Fixtures.{
  outage, memory, Cell, cells, cells_laws, cells_probes, settings, new_cell,
}
use production_ready_url_sho.Tests.Breaking.{command, query}

-- The breaker of `new_cell` once its timeout has run out.
abbrev probing : Cell
probing = record new_cell { mode = half_open }

probe_decides_example :
    ((breaker_exec cells memory background command (probing, empty_tables)).0
      ≡ surface (memory.exec background command empty_tables).0)
    × ((breaker_exec cells memory background command (probing, empty_tables)).1.1
        ≡ (memory.exec background command empty_tables).1)
    × ((breaker_exec cells memory background command (probing, empty_tables)).1.0.mode
        ≡ verdict (should_count (error_of (memory.exec background command empty_tables).0)))
    × ((breaker_exec cells memory background command ((cells.admit probing).1, empty_tables)).0
        ≡ err (sentinel circuit_open))
    × ((breaker_exec cells memory background command ((cells.admit probing).1, empty_tables)).1.1
        ≡ empty_tables)
probe_decides_example =
    probe_decides cells cells_laws cells_probes memory settings background background command
      command probing empty_tables empty_tables refl
      (record { steady = tt; configured = refl; half_open_now = refl; fresh = refl })

abbrev linked : Dbtx (Option Tables)
linked = record {
  exec = λ ctx cmd s. elim s [
    | none ↦ (err outage, none)
    | some t ↦ let (r, t') = execute cmd t in (r, some t')
  ];
  query = λ ctx q s. elim s [ none ↦ (err outage, none) | some t ↦ (ok (delivered q t), some t) ];
}

abbrev IsDown : Option Tables → Type 0
IsDown s = s ≡ none

down : (ctx : Ctx) (q : Query) → Outage (linked.query ctx q) IsDown
unfolding should_count is as_pg
down ctx q = record { fails = λ s h. (outage, rw h refl, refl); lasts = λ s h. rw h refl }

abbrev before : Pools Cell (Option Tables)
before = record { primary = (new_cell, some empty_tables); replica = some (new_cell, none) }

abbrev once : Ctx × Query
once = (background, query)

abbrev five : List (Ctx × Query)
five = once ∷ once ∷ once ∷ once ∷ once ∷ []

outage_falls_back_example :
    let after = reads cells cells_laws linked settings five before in
    let x = read cells linked background query after in
    (x.0 ≡ (breaker_query cells linked background query after.primary).0)
    × (x.1.primary ≡ (breaker_query cells linked background query after.primary).1)
    × (replica_pool x.1.replica ≡ replica_pool after.replica)
outage_falls_back_example =
    outage_falls_back cells cells_laws linked settings IsDown down five background query before none
      tt refl refl (omega arith) (omega arith)

abbrev busy : Cell
busy = record probing { counts = on_request probing.counts }

abbrev half : Pools Cell Tables
half = record { primary = (new_cell, empty_tables); replica = some (busy, empty_tables) }

half_open_read_fails_example :
    ((read cells memory background query half).0 ≡ err (sentinel circuit_open))
    × ((read cells memory background query half).1.primary ≡ half.primary)
    × (replica_pool (read cells memory background query half).1.replica ≡ some empty_tables)
unfolding new_breaker
half_open_read_fails_example =
    half_open_read_fails cells cells_laws cells_probes memory background query half busy
      empty_tables refl tt refl (omega arith)
