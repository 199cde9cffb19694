-- ===== src/Cleanup/Racing.antt =====
-- The goroutine of a redirect and the cleanup, in either order.
use production_ready_url_sho.Common.{
  ℕ, ◌≤◌, ◌<◌, ◌≡◌, ◌∙◌, ap, String, none, some, List, [], ◌∷◌, ℤ, arith,
}
use production_ready_url_sho.Failure.{ok}
use production_ready_url_sho.Context.{Ctx}
use production_ready_url_sho.Model.{Url}
use production_ready_url_sho.Sql.{Tables, execute}
use production_ready_url_sho.Sql.Constraints.{IsConsistent}
use production_ready_url_sho.Sql.Selecting.{find_live}
use production_ready_url_sho.Sql.Lasting.{touched, find_live-map-touch}
use production_ready_url_sho.Repository.Calm.{table_urls}
use production_ready_url_sho.Service.{redirect, touch_last_used}
use production_ready_url_sho.Cleanup.{cutoff_time, run_cleanup}
use production_ready_url_sho.Cleanup.Exactness.{used_since, cleanup_exact}
use production_ready_url_sho.Cleanup.Fresh.{
  missing_target, redirect-none, redirect-some, followed_url_kept,
}

-- What a goroutine of `Redirect` writes: when, and to which row.
pub record Touch : Type 0 where
  pub at : ℕ
  pub id : String

-- The goroutines of any redirects, one after the other.
unfoldable pub touch_all : List Touch → Tables → Tables
touch_all [] t = t
touch_all (x ∷ xs) t = touch_all xs (touch_last_used table_urls x.at x.id t)

touch_all-none :
    (key : String) (xs : List Touch) (t : Tables)
    → find_live key t.urls ≡ none
    → find_live key (touch_all xs t).urls ≡ none
unfolding touch_all touch_last_used execute touched
touch_all-none key [] t h = h
touch_all-none key (x ∷ xs) t h =
    touch_all-none key xs (touch_last_used table_urls x.at x.id t)
      (find_live-map-touch x.at x.id key t.urls ∙ ap (touched x.at x.id) h)

-- On tables whose URLs are consistent: a key leads to a row that was last used before the cutoff of
-- a cleanup, and is followed now; the redirect answers with the row's URL and starts the goroutine
-- that touches it. If that goes first, the cleanup keeps the URL. If the cleanup goes first, the
-- key is lost for good: neither this goroutine nor those of any other redirects bring it back.
pub touch_race :
    (t : Tables) (key : String) (row : Url) (at now later : ℕ) (threshold : ℤ) (others : List Touch)
    (ctx ctx' ctx'' : Ctx)
    → IsConsistent t.urls
    → find_live key t.urls ≡ some row
    → row.last_used_at < cutoff_time now threshold
    → cutoff_time now threshold ≤ at
    → ((redirect table_urls ctx key t).0 ≡ record { target = ok row.url; spawned = some row.id })
      × ((redirect table_urls ctx'' key
            (run_cleanup table_urls threshold ctx' now later
              (touch_last_used table_urls at row.id t)).1).0.target
          ≡ ok row.url)
      × ((redirect table_urls ctx'' key (
            touch_all
              (record { at = at; id = row.id } ∷ others)
              (run_cleanup table_urls threshold ctx' now later t).1)).0
          ≡ missing_target)
touch_race t key row at now later threshold others ctx ctx' ctx'' consistent there stale fresh =
    let seen = redirect-some ctx key t row there in
    let cleaned = run_cleanup table_urls threshold ctx' now later t in
    let gone : find_live key cleaned.1.urls ≡ none =
      cleanup_exact threshold ctx' now later key t consistent
      ∙ ap (used_since (cutoff_time now threshold)) there
      ∙ ground arith in
    let touches : List Touch = record { at = at; id = row.id } ∷ others in
    (
      seen,
      followed_url_kept t key row.url row.id at now later threshold ctx ctx' ctx'' consistent seen
          fresh,
      redirect-none ctx'' key (touch_all touches cleaned.1)
          (touch_all-none key touches cleaned.1 gone),
    )
