-- ===== src/Tests/Shortening.antt =====
-- Shortening, following and cleaning up, run on small tables.
use production_ready_url_sho.Common.{
  ℕ, suc, ◌*◌, ◌%◌, ◌^◌, AllChars, ◌≡◌, inl, refl, String, some, List, [], ◌∷◌, ◌==◌, eq_iff, chars,
  arith, ℤ, pos, if◌then◌else◌,
}
use production_ready_url_sho.Failure.{is, ok, err, wrapped}
use production_ready_url_sho.Context.{background, second, get_client_ip, with_timeout}
use production_ready_url_sho.Model.{Stamp, Url, new_url}
use production_ready_url_sho.Keygen.{
  short_key_from_url, max_collision_retries, base, short_key_length,
}
use production_ready_url_sho.Keygen.Decimal.{salted}
use production_ready_url_sho.Keygen.Digits.{IsBase62, value_of}
use production_ready_url_sho.Keygen.Collisions.{short_key_lem, hash_number}
use production_ready_url_sho.Sql.{
  Tables, empty_tables, execute, has_id, has_live_key, unique_violation,
}
use production_ready_url_sho.Service.{touch_last_used, shorten_url, redirect}
use production_ready_url_sho.Sql.Selecting.{find_live}
use production_ready_url_sho.Service.OnTables.{EndsByLookup}
use production_ready_url_sho.Service.Lifecycle.Shortened.{shorten}
use production_ready_url_sho.Service.Lifecycle.Returning.{shorten_idempotent, exhausted_fails}
use production_ready_url_sho.Repository.Calm.{table_urls}
use production_ready_url_sho.Cleanup.{cutoff_time, run_cleanup}
use production_ready_url_sho.Cleanup.Fresh.{missing_target, fresh_url_lost}
use production_ready_url_sho.Cleanup.Racing.{Touch, touch_all, touch_race}
use production_ready_url_sho.Tests.Fixtures.{length_hash, stamp, log_stamp}

-- What a run of the service on the tables computes.
running : Unit {0}
unfolding shorten_url find_live is execute new_url short_key_from_url has_id has_live_key
    get_client_ip with_timeout salted redirect
running = tt

abbrev pub page : String
page = "https://go.dev"

abbrev pub page_key : String
page_key = short_key_from_url length_hash page

abbrev pub stored : Url
stored = new_url stamp page page_key

abbrev pub tables : Tables
tables = (shorten length_hash background stamp log_stamp page "curl" empty_tables).1

shortened :
    shorten length_hash background stamp log_stamp page "curl" empty_tables ≡ (ok stored, tables)
unfolding running
shortened = refl

-- The next stamps.
abbrev pub later_stamp : Stamp
later_stamp = record { now = 6_000_000_000; uuid = "u2" }

abbrev pub later_log : Stamp
later_log = record { now = 6_000_000_001; uuid = "r2" }

shorten_idempotent_example :
    (v : Url) × ((shorten length_hash background later_stamp later_log page "wget" tables).0 ≡ ok v)
    × (v.id ≡ "u1")
    × (v.short_key ≡ page_key)
    × ((shorten length_hash background later_stamp later_log page "wget" tables).1.urls
        ≡ tables.urls)
unfolding running
shorten_idempotent_example =
    shorten_idempotent length_hash background page stamp log_stamp later_stamp later_log "curl"
      "wget" empty_tables tables stored (inl tt) shortened

-- A hash that tells apart the sixth salted variant of "a" only.
abbrev unlucky_hash : String → List ℕ
unlucky_hash url = if url == "a:6" then 8 ∷ [] else 7 ∷ []

abbrev crowded : Tables
crowded = (shorten unlucky_hash background stamp log_stamp "b" "curl" empty_tables).1

abbrev sixth : Url
sixth = new_url later_stamp "a" (short_key_from_url unlucky_hash "a:6")

abbrev after_sixth : Tables
after_sixth = (shorten unlucky_hash background later_stamp later_log "a" "curl" crowded).1

sixth_created :
    shorten unlucky_hash background later_stamp later_log "a" "curl" crowded
    ≡ (ok sixth, after_sixth)
unfolding running
sixth_created = refl

all_taken : ¬ EndsByLookup unlucky_hash background "a" (suc max_collision_retries) 0 crowded
unfolding running
all_taken = λ h. ground (arith, (eq_iff "b" "a").1)

exhausted_fails_example :
    shorten unlucky_hash background stamp log_stamp "a" "wget" after_sixth
    ≡ (err (wrapped "create url" unique_violation), after_sixth)
exhausted_fails_example =
    exhausted_fails unlucky_hash background "a" later_stamp later_log stamp log_stamp "curl" "wget"
      crowded after_sixth sixth all_taken sixth_created

-- Thirty days.
abbrev threshold : ℤ
threshold = pos (2_592_000 * second)

abbrev much_later : ℕ
much_later = 63_900_000_000 * second

fresh_url_lost_example :
    (redirect table_urls background page_key
      (run_cleanup table_urls threshold background much_later much_later tables).1).0
    ≡ missing_target
unfolding running cutoff_time
fresh_url_lost_example =
    fresh_url_lost length_hash background stamp log_stamp page "curl" empty_tables tables stored
      page_key threshold much_later much_later background background shortened refl (tt, tt)
      (omega arith)

-- The goroutine of another redirect of the same row.
abbrev another : Touch
another = record { at = much_later; id = "u1" }

touch_race_example :
    ((redirect table_urls background page_key tables).0
      ≡ record { target = ok page; spawned = some "u1" })
    × ((redirect table_urls background page_key
          (run_cleanup table_urls threshold background much_later much_later
            (touch_last_used table_urls much_later "u1" tables)).1).0.target
        ≡ ok page)
    × ((redirect table_urls background page_key (
          touch_all
            (another ∷ another ∷ [])
            (run_cleanup table_urls threshold background much_later much_later tables).1)).0
        ≡ missing_target)
unfolding running cutoff_time
touch_race_example =
    touch_race tables page_key stored much_later much_later much_later threshold (another ∷ [])
      background background background (tt, tt) refl (omega arith) (omega arith)

short_key_lem_example :
    (chars page_key ≡ short_key_length)
    × AllChars IsBase62 page_key
    × (value_of page_key ≡ hash_number length_hash page % base ^ short_key_length)
short_key_lem_example = short_key_lem length_hash page
