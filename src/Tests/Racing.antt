-- ===== src/Tests/Racing.antt =====
-- Two clients at the same time, and the calls of one.
use production_ready_url_sho.Common.{◌≡◌, ◌≤◌, refl, some, List, [], ◌∷◌}
use production_ready_url_sho.Failure.{is, ok, err, wrapped}
use production_ready_url_sho.Context.{background, get_client_ip, with_timeout}
use production_ready_url_sho.Model.{Url, new_url}
use production_ready_url_sho.Keygen.{short_key_from_url}
use production_ready_url_sho.Keygen.Decimal.{salted}
use production_ready_url_sho.Sql.{
  Command, insert_url, Tables, empty_tables, execute, has_id, has_live_key, unique_violation,
}
use production_ready_url_sho.Sql.Selecting.{find_live}
use production_ready_url_sho.Sql.Lasting.{run_all}
use production_ready_url_sho.Repository.Calm.{table_urls, table_requests}
use production_ready_url_sho.Service.{free, shorten_url, redirect, conclude, store}
use production_ready_url_sho.Service.Lifecycle.Shortened.{lookup}
use production_ready_url_sho.Service.Lifecycle.Concurrent.{
  conclude_on, links_last, race_loser_fails,
}
use production_ready_url_sho.Service.Effort.{counted_shorten, calls_bounded}
use production_ready_url_sho.Tests.Fixtures.{length_hash, stamp, log_stamp}
use production_ready_url_sho.Tests.Shortening.{page, page_key, stored, later_stamp, later_log}

running : Unit {0}
unfolding shorten_url find_live is execute new_url short_key_from_url has_id has_live_key
    get_client_ip with_timeout salted redirect conclude store run_all
running = tt

-- Another client's link, inserted in between.
abbrev other_link : Url
other_link =
    new_url later_stamp "https://a.com/b" (short_key_from_url length_hash "https://a.com/b")

abbrev between : List Command
between = insert_url other_link ∷ []

abbrev shortened_late : Tables
shortened_late =
    (conclude_on length_hash background stamp log_stamp page "curl" (free page_key)
      (run_all between empty_tables)).1

late :
    conclude_on length_hash background stamp log_stamp page "curl"
      (lookup length_hash background page empty_tables).0
      (run_all between empty_tables)
    ≡ (ok stored, shortened_late)
unfolding running
late = refl

links_last_example :
    (redirect table_urls background page_key (run_all between shortened_late)).0
    ≡ record { target = ok page; spawned = some "u1" }
unfolding new_url
links_last_example =
    links_last length_hash background stamp log_stamp page "curl" empty_tables shortened_late
      between between stored background (tt, tt) (tt, tt) late

-- The winner, on tables that were empty at the lookups of both.
abbrev won : Tables
won =
    (conclude_on length_hash background stamp log_stamp page "curl"
      (lookup length_hash background page empty_tables).0 empty_tables).1

winner :
    conclude_on length_hash background stamp log_stamp page "curl"
      (lookup length_hash background page empty_tables).0
      empty_tables
    ≡ (ok stored, won)
unfolding running
winner = refl

found_free : lookup length_hash background page empty_tables ≡ (free page_key, empty_tables)
unfolding running
found_free = refl

race_loser_fails_example :
    conclude_on length_hash background later_stamp later_log page "wget"
      (lookup length_hash background page empty_tables).0
      (run_all between won)
    ≡ (err (wrapped "create url" unique_violation), run_all between won)
race_loser_fails_example =
    race_loser_fails length_hash page background background stamp log_stamp later_stamp later_log
      "curl" "wget" page_key empty_tables won between stored found_free found_free winner (tt, tt)

calls_bounded_example :
    let (r, (c, s)) =
      counted_shorten length_hash table_urls table_requests background stamp log_stamp page "curl"
        won in
    (c.lookups ≤ 6)
    × (c.creates ≤ 1)
    × (c.logs ≤ 1)
    × ((r, s)
        ≡ shorten_url length_hash table_urls table_requests background stamp log_stamp page "curl"
            won)
calls_bounded_example =
    calls_bounded length_hash table_urls table_requests background stamp log_stamp page "curl" won
