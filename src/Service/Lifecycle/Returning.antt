-- ===== src/Service/Lifecycle/Returning.antt =====
-- Shortening and following: a URL comes back from its short key, and is not stored twice.
use production_ready_url_sho.Common.{
  ℕ, suc, ◌≡◌, ◌∙◌, refl, sym, ap, String, List, ◌∷◌, some, true, false, arith, eq_refl, eq_iff,
  ltb, chars,
}
use production_ready_url_sho.Failure.{ok, err, wrapped}
use production_ready_url_sho.Context.{Ctx}
use production_ready_url_sho.Model.{Stamp, Url, new_url}
use production_ready_url_sho.Keygen.{max_collision_retries}
use production_ready_url_sho.Sql.{
  Tables, insert_into_urls, has_live_key, has_id, is_live, as_inserted, columns, unique_violation,
  execute,
}
use production_ready_url_sho.Sql.Selecting.{find_live}
use production_ready_url_sho.Repository.{filled}
use production_ready_url_sho.Repository.Calm.{table_urls}
use production_ready_url_sho.Service.{existing, free, store, conclude, shorten_url, redirect}
use production_ready_url_sho.Service.OnTables.{
  log_request-urls, probe_again, probe_exhausted, probe_transfer, probe_never, EndsByLookup,
}
use production_ready_url_sho.Service.Lifecycle.Shortened.{
  lookup, shorten, Shortened, reused, created, shorten-Shortened,
}

-- What a redirection to a stored row looks like.
pub redirect-found :
    (ctx : Ctx) (key : String) (t : Tables) (row : Url)
    → find_live key t.urls ≡ some row
    → redirect table_urls ctx key t ≡ (record { target = ok row.url; spawned = some row.id }, t)
unfolding redirect
redirect-found ctx key t row h = rw h refl

pub find_self :
    (u : Url) (us : List Url) → is_live u ≡ true → find_live u.short_key (u ∷ us) ≡ some u
unfolding find_live
find_self u us live = ground (arith, eq_refl u.short_key)

module _ (sum256 : String → List ℕ) (ctx : Ctx) (original : String) where
  pub Shortened-find :
      (st log_st : Stamp) (agent : String) (t t' : Tables) (u : Url)
      → Shortened sum256 ctx st log_st original agent t u t'
      → (row : Url) × (find_live u.short_key t'.urls ≡ some row)
        × (row.url ≡ original)
        × (row.id ≡ u.id)
  unfolding find_live new_url
  Shortened-find st log_st agent t t' u (reused row looked there same known after) =
      (row, ap (find_live u.short_key) after ∙ there, known, ap (λ (v : Url). v.id) (sym same))
  Shortened-find st log_st agent t t' u (created key looked same room fits after) = (
    u,
    ap (find_live u.short_key) after ∙ find_self u t.urls (ap (λ v. is_live v) same),
    ap (λ (v : Url). v.url) same,
    refl,
  )

  -- When `ShortenURL` succeeds on the tables, `Redirect` of the short key that it returned leads to
  -- the URL that was shortened, starts the update of the row that was returned, and changes nothing.
  pub redirect-shorten :
      (st log_st : Stamp) (agent : String) (t t' : Tables) (u : Url) (ctx' : Ctx)
      → shorten sum256 ctx st log_st original agent t ≡ (ok u, t')
      → redirect table_urls ctx' u.short_key t'
        ≡ (record { target = ok original; spawned = some u.id }, t')
  redirect-shorten st log_st agent t t' u ctx' h =
      let s = shorten-Shortened sum256 ctx st log_st original agent t t' u h in
      let (row, there, url, id) = Shortened-find st log_st agent t t' u s in
      redirect-found ctx' u.short_key t' row there ∙ cc (url, id)

  probe-twice :
      (st log_st : Stamp) (agent : String) (t t' : Tables) (u : Url)
      → Shortened sum256 ctx st log_st original agent t u t'
      → EndsByLookup sum256 ctx original (suc max_collision_retries) 0 t
      → (v : Url) × (lookup sum256 ctx original t' ≡ (existing v, t'))
        × (v.id ≡ u.id)
        × (v.short_key ≡ u.short_key)
  unfolding new_url
  probe-twice st log_st agent t t' u (reused row looked there same known after) ends =
      (u, probe_transfer sum256 ctx original _ 0 t t' (existing u) (sym after) looked, refl, refl)
  probe-twice st log_st agent t t' u (created key looked same room fits after) ends =
      let new = new_url st original key in
      let again =
        probe_again sum256 ctx original t new refl room (suc max_collision_retries) 0 looked ends in
      (
        filled (columns new),
        probe_transfer sum256 ctx original _ 0 (record t { urls = as_inserted new ∷ t.urls }) t' _
            (ap (λ v. v ∷ t.urls) (sym same) ∙ sym after) again,
        ap (λ (v : Url). v.id) (sym same),
        ap (λ (v : Url). v.short_key) (sym same),
      )

  shorten-existing :
      (st log_st : Stamp) (agent : String) (t : Tables) (v : Url)
      → lookup sum256 ctx original t ≡ (existing v, t)
      → ((shorten sum256 ctx st log_st original agent t).0 ≡ ok v)
        × ((shorten sum256 ctx st log_st original agent t).1.urls ≡ t.urls)
  unfolding shorten_url conclude
  shorten-existing st log_st agent t v h =
      rw h (refl, log_request-urls sum256 ctx log_st v.id agent t)

  -- Shortening the same URL again, with other stamps and another agent, succeeds with the same row
  -- and the same short key and stores no URL, if the first call ended its loop by a lookup (that is,
  -- not all six keys that it tried belong to other URLs).
  pub shorten_idempotent :
      (st log_st st' log_st' : Stamp) (agent agent' : String) (t t' : Tables) (u : Url)
      → EndsByLookup sum256 ctx original (suc max_collision_retries) 0 t
      → shorten sum256 ctx st log_st original agent t ≡ (ok u, t')
      → (v : Url) × ((shorten sum256 ctx st' log_st' original agent' t').0 ≡ ok v)
        × (v.id ≡ u.id)
        × (v.short_key ≡ u.short_key)
        × ((shorten sum256 ctx st' log_st' original agent' t').1.urls ≡ t'.urls)
  shorten_idempotent st log_st st' log_st' agent agent' t t' u ends h =
      let s = shorten-Shortened sum256 ctx st log_st original agent t t' u h in
      let (v, looked, id, key) = probe-twice st log_st agent t t' u s ends in
      let (result, urls) = shorten-existing st' log_st' agent' t' v looked in
      (v, result, id, key, urls)

  pub insert-taken :
      (st : Stamp) (key : String) (t : Tables) (u : Url)
      → ltb 11 (chars key) ≡ false
      → is_live u ≡ true
      → u.short_key ≡ key
      → (us : List Url) → t.urls ≡ u ∷ us
      → insert_into_urls (new_url st original key) t ≡ (err unique_violation, t)
  unfolding insert_into_urls has_live_key has_id new_url
  insert-taken st key t u fits live same us e = ground (arith, (eq_iff u.short_key key).1 same, e)

  shorten-taken :
      (st log_st : Stamp) (agent key : String) (t : Tables)
      → lookup sum256 ctx original t ≡ (free key, t)
      → insert_into_urls (new_url st original key) t ≡ (err unique_violation, t)
      → shorten sum256 ctx st log_st original agent t
        ≡ (err (wrapped "create url" unique_violation), t)
  unfolding shorten_url conclude store execute
  shorten-taken st log_st agent key t looked full = rw looked (rw full refl)

  -- If the six keys that the loop looks up all belong to other URLs, and the call succeeds all the
  -- same, under the seventh key, then the next call for the same URL, with other stamps and another
  -- agent, fails with the violation of the unique index and changes nothing.
  pub exhausted_fails :
      (st log_st st' log_st' : Stamp) (agent agent' : String) (t t' : Tables) (u : Url)
      → ¬ EndsByLookup sum256 ctx original (suc max_collision_retries) 0 t
      → shorten sum256 ctx st log_st original agent t ≡ (ok u, t')
      → shorten sum256 ctx st' log_st' original agent' t'
        ≡ (err (wrapped "create url" unique_violation), t')
  unfolding new_url
  exhausted_fails st log_st st' log_st' agent agent' t t' u never h =
      let (k, freed) = probe_never sum256 ctx original (suc max_collision_retries) 0 t never in
      elim (shorten-Shortened sum256 ctx st log_st original agent t t' u h) [
        | reused row looked there same known after ↦ cc (looked, freed)
        | created key looked same room fits after ↦
            let new = new_url st original key in
            let again =
              probe_transfer sum256 ctx original (suc max_collision_retries) 0
                (record t { urls = as_inserted new ∷ t.urls }) t' (free key)
                (ap (λ v. v ∷ t.urls) (sym same) ∙ sym after)
                (probe_exhausted sum256 ctx original t new refl room (suc max_collision_retries) 0
                  looked never) in
            shorten-taken st' log_st' agent' key t' again (
              insert-taken st' key t' u fits (ap (λ v. is_live v) same)
                (ap (λ (v : Url). v.short_key) same) t.urls after)
      ]
