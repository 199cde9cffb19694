-- ===== src/Cleanup/Fresh.antt =====
-- A new URL and the cleanup: only a redirect sets the time of last use.
use production_ready_url_sho.Common.{
  ℕ, ◌≤◌, ◌<◌, ◌≡◌, ◌∙◌, refl, ap, String, none, some, List, ◌∷◌, map, ℤ, Option-cases, inl, inr,
  eq_iff, arith,
}
use production_ready_url_sho.Failure.{ok, err, sentinel, not_found}
use production_ready_url_sho.Context.{Ctx}
use production_ready_url_sho.Model.{Stamp, Url, new_url}
use production_ready_url_sho.Sql.{Tables, execute, update_last_used, touch, is_live}
use production_ready_url_sho.Sql.Constraints.{IsConsistent, execute-IsConsistent}
use production_ready_url_sho.Sql.Selecting.{find_live}
use production_ready_url_sho.Sql.Lasting.{touched, find_live-map-touch, url-touch}
use production_ready_url_sho.Repository.Calm.{table_urls}
use production_ready_url_sho.Service.{free, Redirection, redirect, touch_last_used}
use production_ready_url_sho.Service.Lifecycle.Shortened.{
  lookup, shorten, reused, created, shorten-Shortened,
}
use production_ready_url_sho.Service.Lifecycle.Returning.{find_self}
use production_ready_url_sho.Cleanup.{cutoff_time, run_cleanup}
use production_ready_url_sho.Cleanup.Exactness.{used_since, cleanup_exact}

-- What a redirection answers when its key resolves to nothing.
abbrev pub missing_target : Redirection
missing_target = record { target = err (sentinel not_found); spawned = none }

pub redirect-none :
    (ctx : Ctx) (key : String) (t : Tables)
    → find_live key t.urls ≡ none
    → (redirect table_urls ctx key t).0 ≡ missing_target
unfolding redirect
redirect-none ctx key t h = rw h refl

pub redirect-some :
    (ctx : Ctx) (key : String) (t : Tables) (row : Url)
    → find_live key t.urls ≡ some row
    → (redirect table_urls ctx key t).0 ≡ record { target = ok row.url; spawned = some row.id }
unfolding redirect
redirect-some ctx key t row h = rw h refl

module _ (sum256 : String → List ℕ) (ctx : Ctx) (st log_st : Stamp) (original agent : String) where
  new_row :
      (t t' : Tables) (u : Url) (key : String)
      → shorten sum256 ctx st log_st original agent t ≡ (ok u, t')
      → lookup sum256 ctx original t ≡ (free key, t)
      → (u ≡ new_url st original key) × (t'.urls ≡ u ∷ t.urls)
  new_row t t' u key h looked =
      elim (shorten-Shortened sum256 ctx st log_st original agent t t' u h) [
        | reused row looked' _ _ _ _ ↦ cc (looked, looked')
        | created key' looked' same _ _ after ↦ (cc (looked, looked', same), after)
      ]

  -- On tables whose URLs are consistent: a URL that `ShortenURL` has just stored as a new row, and
  -- that nobody has followed, is retired by the next cleanup, whatever the threshold, as long as
  -- the cutoff lies after Go's zero time: its redirect then answers "record not found".
  pub fresh_url_lost :
      (t t' : Tables) (u : Url) (key : String) (threshold : ℤ) (now later : ℕ) (ctx' ctx'' : Ctx)
      → shorten sum256 ctx st log_st original agent t ≡ (ok u, t')
      → lookup sum256 ctx original t ≡ (free key, t)
      → IsConsistent t'.urls
      → 0 < cutoff_time now threshold
      → (redirect table_urls ctx'' u.short_key
          (run_cleanup table_urls threshold ctx' now later t').1).0
        ≡ missing_target
  unfolding new_url
  fresh_url_lost t t' u key threshold now later ctx' ctx'' h looked consistent past =
      let (same, after) = new_row t t' u key h looked in
      let there : find_live u.short_key t'.urls ≡ some u =
        ap (find_live u.short_key) after ∙ find_self u t.urls (ap (λ v. is_live v) same) in
      let unused : u.last_used_at ≡ 0 = ap (λ (v : Url). v.last_used_at) same in
      redirect-none ctx'' u.short_key _ (
        cleanup_exact threshold ctx' now later u.short_key t' consistent
        ∙ ap (used_since (cutoff_time now threshold)) there
        ∙ ground arith)

used_since-touch :
    (at : ℕ) (id : String) (row : Url) (cutoff : ℕ)
    → row.id ≡ id
    → cutoff ≤ at
    → used_since cutoff (some (touch at id row)) ≡ some (touch at id row)
unfolding touch
used_since-touch at id row cutoff same fresh = ground (arith, eq_iff row.id id)

-- On tables whose URLs are consistent: a URL that is followed, and whose time of last use the
-- goroutine of that redirect has set, is kept by a cleanup whose cutoff is not after that time: its
-- short key still leads to the same URL.
pub followed_url_kept :
    (t : Tables) (key url id : String) (at now later : ℕ) (threshold : ℤ) (ctx ctx' ctx'' : Ctx)
    → IsConsistent t.urls
    → (redirect table_urls ctx key t).0 ≡ record { target = ok url; spawned = some id }
    → cutoff_time now threshold ≤ at
    → (redirect table_urls ctx'' key
        (run_cleanup table_urls threshold ctx' now later
          (touch_last_used table_urls at id t)).1).0.target
      ≡ ok url
unfolding touched touch_last_used execute
followed_url_kept t key url id at now later threshold ctx ctx' ctx'' consistent h fresh =
    elim (Option-cases (find_live key t.urls)) [
      | inl missing ↦ cc (h, redirect-none ctx key t missing)
      | inr (row, there) ↦
          let seen = redirect-some ctx key t row there in
          let cutoff = cutoff_time now threshold in
          let t' : Tables = record t { urls = map (touch at id) t.urls } in
          let kept : find_live key (run_cleanup table_urls threshold ctx' now later t').1.urls
              ≡ some (touch at id row) =
            cleanup_exact threshold ctx' now later key t'
              (execute-IsConsistent (update_last_used at id) t consistent)
            ∙ ap (used_since (cutoff_time now threshold))
                (find_live-map-touch at id key t.urls ∙ ap (touched at id) there)
            ∙ used_since-touch at id row cutoff (cc (h, seen)) fresh in
          ap (λ (r : Redirection). r.target) (redirect-some ctx'' key _ _ kept)
          ∙ cc (h, seen, url-touch at id row)
    ]
