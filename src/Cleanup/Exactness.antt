-- ===== src/Cleanup/Exactness.antt =====
-- What the statement of the cleanup does to the keys that resolve.
use production_ready_url_sho.Common.{
  ℕ, ◌≡◌, refl, String, true, Option, none, some, List, [], ◌∷◌, map, All, ltb, ℤ, Bool-cases, inl,
  inr, eq_iff, arith, if◌then◌else◌,
}
use production_ready_url_sho.Context.{Ctx}
use production_ready_url_sho.Model.{Url}
use production_ready_url_sho.Sql.{Tables, execute, retire, answers}
use production_ready_url_sho.Sql.Constraints.{Compatible, IsConsistent}
use production_ready_url_sho.Sql.Selecting.{find_live}
use production_ready_url_sho.Repository.Calm.{table_urls}
use production_ready_url_sho.Cleanup.{cutoff_time, run_cleanup}

-- The row that a key resolves to, unless it was last used before the cutoff.
abbrev pub used_since : ℕ → Option Url → Option Url
used_since cutoff none = none
used_since cutoff (some u) = if ltb u.last_used_at cutoff then none else some u

module _ (at cutoff : ℕ) (key : String) where
  others_skip :
      (u : Url) (us : List Url)
      → answers key u ≡ true
      → All (Compatible u) us
      → find_live key (map (retire at cutoff) us) ≡ none
  unfolding find_live retire
  others_skip u [] h all = refl
  others_skip u (v ∷ vs) h (c, cs) =
      let keys = c.keys (ground arith) in
      ground (arith, keys, eq_iff u.short_key key, eq_iff v.short_key key, others_skip u vs h cs)

  find_live-map-retire :
      (us : List Url)
      → IsConsistent us
      → find_live key (map (retire at cutoff) us) ≡ used_since cutoff (find_live key us)
  unfolding find_live retire
  find_live-map-retire [] h = refl
  find_live-map-retire (u ∷ us) (c, h) = elim (Bool-cases (answers key u)) [
    | inl yes_it ↦ elim (Bool-cases (ltb u.last_used_at cutoff)) [
      | inl old ↦ ground (arith, others_skip u us yes_it c)
      | inr used ↦ ground arith
    ]
    | inr not_it ↦ ground (arith, find_live-map-retire us h)
  ]

-- On tables whose URLs are consistent: after a cleanup a key resolves exactly if it resolved before
-- to a row whose last use is not before the cutoff, and then to that same row.
pub cleanup_exact :
    (threshold : ℤ) (ctx : Ctx) (now later : ℕ) (key : String) (t : Tables)
    → IsConsistent t.urls
    → find_live key (run_cleanup table_urls threshold ctx now later t).1.urls
      ≡ used_since (cutoff_time now threshold) (find_live key t.urls)
unfolding run_cleanup execute
cleanup_exact threshold ctx now later key t h =
    find_live-map-retire later (cutoff_time now threshold) key t.urls h
