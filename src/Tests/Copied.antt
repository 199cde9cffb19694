-- ===== src/Tests/Copied.antt =====
-- A database with a replica that lags.
use production_ready_url_sho.Common.{◌≡◌, refl, some}
use production_ready_url_sho.Failure.{is, ok, err, wrapped}
use production_ready_url_sho.Context.{background, get_client_ip, with_timeout}
use production_ready_url_sho.Model.{new_url}
use production_ready_url_sho.Keygen.{short_key_from_url}
use production_ready_url_sho.Keygen.Decimal.{salted}
use production_ready_url_sho.Sql.{
  Tables, empty_tables, execute, has_id, has_live_key, unique_violation, select,
}
use production_ready_url_sho.Sql.Selecting.{find_live}
use production_ready_url_sho.Sql.Lasting.{run_all}
use production_ready_url_sho.Database.{reader, Pools, query_row, scan}
use production_ready_url_sho.Database.Pooled.Replicated.{IsReplicated}
use production_ready_url_sho.Repository.{new_url_repository}
use production_ready_url_sho.Service.{shorten_url, redirect, conclude, store}
use production_ready_url_sho.Service.Lagging.{unknown}
use production_ready_url_sho.Service.OnReplica.{urls, requests, replica_misses}
use production_ready_url_sho.Tests.Fixtures.{
  length_hash, stamp, log_stamp, memory, memory_laws, Cell, cells, cells_laws, settings, new_cell,
}
use production_ready_url_sho.Tests.Shortening.{page, page_key, stored, later_stamp, later_log}

running : Unit {0}
unfolding shorten_url find_live is execute new_url short_key_from_url has_id has_live_key
    get_client_ip with_timeout salted redirect conclude store run_all
running = tt

abbrev start : Pools Cell Tables
start = record { primary = (new_cell, empty_tables); replica = some (new_cell, empty_tables) }

start-IsReplicated : IsReplicated cells cells_laws settings settings memory memory_laws start
start-IsReplicated = record {
  ready = record { steady = tt; configured = refl; closed_now = refl };
  calm = tt;
  breaker = new_cell;
  copy = empty_tables;
  there = refl;
  replica_ready = record { steady = tt; configured = refl; closed_now = refl };
  replica_calm = tt;
}

abbrev after : Pools Cell Tables
after =
    (shorten_url length_hash (urls cells memory) (requests cells memory) background stamp log_stamp
      page "curl" start).1

shortens_pooled :
    shorten_url length_hash
      (urls cells memory)
      (requests cells memory)
      background
      stamp
      log_stamp
      page
      "curl"
      start
    ≡ (ok stored, after)
unfolding running new_url_repository scan query_row reader select
shortens_pooled = refl

replica_misses_example :
    ((redirect (urls cells memory) background page_key after).0 ≡ unknown)
    × ((shorten_url length_hash
          (urls cells memory)
          (requests cells memory)
          background
          later_stamp
          later_log
          page
          "wget"
          after).0
        ≡ err (wrapped "create url" unique_violation))
unfolding running
replica_misses_example =
    replica_misses cells cells_laws settings settings memory memory_laws length_hash page background
      background background stamp log_stamp later_stamp later_log "curl" "wget" start after stored
      start-IsReplicated refl shortens_pooled
