-- ===== src/Tests/Storage.antt =====
-- The repositories on the database in memory.
use production_ready_url_sho.Common.{ℕ, ◌≡◌, String, [], ◌∷◌, pos, ◌*◌}
use production_ready_url_sho.Context.{background, second}
use production_ready_url_sho.Model.{Stamp, Url, new_url}
use production_ready_url_sho.Sql.{Tables, insert_url}
use production_ready_url_sho.Sql.Selecting.{find_live}
use production_ready_url_sho.Database.Pooled.Routed.{pooled_exec}
use production_ready_url_sho.Repository.{new_url_repository, new_request_repository}
use production_ready_url_sho.Repository.Postgres.{Exec}
use production_ready_url_sho.Repository.Calm.{table_urls}
use production_ready_url_sho.Repository.Integrity.{operations-Sound, Sound}
use production_ready_url_sho.Cleanup.{cutoff_time, run_cleanup}
use production_ready_url_sho.Cleanup.Exactness.{used_since, cleanup_exact}
use production_ready_url_sho.Database.{Pools}
use production_ready_url_sho.Service.{shorten_url, redirect, touch_last_used}
use production_ready_url_sho.Repository.Deadlines.{Recorded, fresh_record, plain, InTime}
use production_ready_url_sho.Wiring.Deadlines.{
  Timed, recorded_urls, recorded_requests, statements_expire,
}
use production_ready_url_sho.Tests.Fixtures.{
  Cell, length_hash, log_stamp, stamp, memory, memory_laws, cells, cells_laws, settings, server,
  server_router, server_laws,
}

abbrev row : Url
row = new_url stamp "https://go.dev" "key"

abbrev one_row : Tables
one_row = record { urls = row ∷ []; incoming_requests = [] }

cleanup_exact_example :
    find_live "key" (run_cleanup table_urls (pos 60) background 100 101 one_row).1.urls
    ≡ used_since (cutoff_time 100 (pos 60)) (find_live "key" one_row.urls)
cleanup_exact_example = cleanup_exact (pos 60) background 100 101 "key" one_row (tt, tt)

operations-Sound_example :
    let s = server one_row in
    ((u : Url)
      → Sound server_router server_laws
          ((new_url_repository server_router).create background u s).1)
    × ((key : String)
        → Sound server_router server_laws
            ((new_url_repository server_router).get_by_short_key background key s).1)
    × ((now : ℕ) (id : String)
        → Sound server_router server_laws
            ((new_url_repository server_router).update_last_used background now id s).1)
    × ((now cutoff : ℕ)
        → Sound server_router server_laws
            ((new_url_repository server_router).delete_unused_since background now cutoff s).1)
    × ((st : Stamp) (id agent : String)
        → Sound server_router server_laws
            ((new_request_repository server_router).log_create_request background st id agent s).1)
operations-Sound_example =
    operations-Sound server_router server_laws background (server one_row) (tt, tt)

pooled_exec_example :
    let (r, p) = server_router.writer.exec background (insert_url row) (server one_row) in
    Exec one_row (insert_url row) r p.primary.1
pooled_exec_example =
    pooled_exec cells cells_laws settings memory memory_laws background (insert_url row)
      (server one_row)

abbrev start : Recorded (Pools Cell Tables)
start = fresh_record (server one_row)

statements_expire_example :
    let urls = new_url_repository server_router in
    let requests = new_request_repository server_router in
    let log_urls = recorded_urls server_router in
    Timed
      (5 * second)
      (shorten_url length_hash log_urls
        (recorded_requests server_router)
        background
        stamp
        log_stamp
        "https://go.dev/doc"
        "curl"
        start)
      (shorten_url length_hash urls requests background stamp log_stamp "https://go.dev/doc" "curl"
        (server one_row))
    × Timed
        (5 * second)
        (redirect log_urls background "key" start)
        (redirect urls background "key" (server one_row))
    × Timed
        (5 * second)
        (run_cleanup log_urls (pos 60) background 100 101 start)
        (run_cleanup urls (pos 60) background 100 101 (server one_row))
    × InTime (2 * second) (touch_last_used log_urls 100 "u1" start)
    × (plain (touch_last_used log_urls 100 "u1" start)
        ≡ touch_last_used urls 100 "u1" (server one_row))
statements_expire_example =
    statements_expire server_router length_hash background stamp log_stamp "https://go.dev/doc"
      "curl" "key" "u1" (pos 60) 100 101 (server one_row)
