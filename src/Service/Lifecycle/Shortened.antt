-- ===== src/Service/Lifecycle/Shortened.antt =====
-- The two ways in which `ShortenURL` succeeds on the tables.
use production_ready_url_sho.Common.{
  ℕ, suc, ◌≡◌, ◌∙◌, sym, ap, String, List, ◌∷◌, none, some, false, inl, inr, arith, ltb, chars,
}
use production_ready_url_sho.Failure.{Result, ok}
use production_ready_url_sho.Context.{Ctx}
use production_ready_url_sho.Model.{Stamp, Url, new_url}
use production_ready_url_sho.Keygen.{short_key_from_url, max_collision_retries}
use production_ready_url_sho.Sql.{
  Tables, execute, insert_into_urls, as_inserted, columns, has_live_key,
}
use production_ready_url_sho.Sql.Selecting.{find_live, find_live-none}
use production_ready_url_sho.Repository.{filled}
use production_ready_url_sho.Repository.Integrity.{insert-cases}
use production_ready_url_sho.Repository.Calm.{table_urls, table_requests}
use production_ready_url_sho.Service.{
  Probe, existing, free, failed, probe, store, conclude, shorten_url,
}
use production_ready_url_sho.Service.OnTables.{log_request-urls, probe-Found, Found}

-- The loop of `ShortenURL`, from its start.
abbrev pub lookup : (String → List ℕ) → Ctx → String → Tables → Probe × Tables
lookup sum256 ctx original t =
    probe sum256 table_urls ctx original (suc max_collision_retries) 0
      (short_key_from_url sum256 original) t

module _ (sum256 : String → List ℕ) (ctx : Ctx) (st log_st : Stamp) (original agent : String) where
  abbrev pub shorten : Tables → Result Url × Tables
  shorten t = shorten_url sum256 table_urls table_requests ctx st log_st original agent t

  -- A row that was there before is returned, or the new row is inserted under a key that no live
  -- row had.
  pub data Shortened (t : Tables) (u : Url) (t' : Tables) : Type 0 where
    reused :
        (row : Url)
        → lookup sum256 ctx original t ≡ (existing u, t)
        → find_live u.short_key t.urls ≡ some row
        → u ≡ filled (columns row)
        → row.url ≡ original
        → t'.urls ≡ t.urls
        → Shortened t u t'
    created :
        (key : String)
        → lookup sum256 ctx original t ≡ (free key, t)
        → u ≡ new_url st original key
        → find_live key t.urls ≡ none
        → ltb 11 (chars key) ≡ false
        → t'.urls ≡ u ∷ t.urls
        → Shortened t u t'

  inserted-room :
      (u : Url) (t : Tables)
      → insert_into_urls u t ≡ (ok 1, record t { urls = as_inserted u ∷ t.urls })
      → (has_live_key u.short_key t.urls ≡ false) × (ltb 11 (chars u.short_key) ≡ false)
  unfolding insert_into_urls
  inserted-room u t h = (ground arith, ground arith)

  pub store-created :
      (key : String) (u : Url) (t t' : Tables)
      → let new = new_url st original key in
        store sum256 table_urls table_requests ctx log_st agent new (table_urls.create ctx new t)
          ≡ (ok u, t')
        → (u ≡ new_url st original key)
          × (find_live key t.urls ≡ none)
          × (ltb 11 (chars key) ≡ false)
          × (t'.urls ≡ u ∷ t.urls)
  unfolding store new_url execute
  store-created key u t t' h =
      let new = new_url st original key in
      elim (insert-cases new t) [
        | inl e ↦
            let h' = rw e at h in
            let same : new ≡ u = cc h' in
            (
              sym same,
              (find_live-none key t.urls).1 (inserted-room new t e).0,
              (inserted-room new t e).1,
              ap (λ (x : Result Url × Tables). x.1.urls) (sym h')
                  ∙ log_request-urls sum256 ctx log_st new.id agent
                      (record t { urls = as_inserted new ∷ t.urls })
                  ∙ ap (λ v. v ∷ t.urls) same,
            )
        | inr (x, e) ↦ let h' = rw e at h in cc h'
      ]

  conclude-Shortened :
      (p : Probe) (t t' : Tables) (u : Url)
      → lookup sum256 ctx original t ≡ (p, t)
      → Found sum256 ctx original t p
      → conclude sum256 table_urls table_requests ctx st log_st original agent (p, t) ≡ (ok u, t')
      → Shortened t u t'
  unfolding conclude
  conclude-Shortened (existing v) t t' u looked (row, there, same, known) h =
      let e : v ≡ u = cc h in
      reused row (looked ∙ ap (λ w. (existing w, t)) e)
        (ap (λ w. find_live w.short_key t.urls) (sym e) ∙ there) (sym e ∙ same) known
        (ap (λ (x : Result Url × Tables). x.1.urls) (sym h)
          ∙ log_request-urls sum256 ctx log_st v.id agent t)
  conclude-Shortened (free key) t t' u looked _ h =
      let (same, room, fits, after) = store-created key u t t' h in
      created key looked same room fits after
  conclude-Shortened (failed e) t t' u looked f h = absurd f

  -- A success of `ShortenURL` on the tables went one of the two ways.
  pub shorten-Shortened : (t t' : Tables) (u : Url) → shorten t ≡ (ok u, t') → Shortened t u t'
  unfolding shorten_url
  shorten-Shortened t t' u h =
      let (same, found) = probe-Found sum256 ctx original (suc max_collision_retries) 0 t in
      let looked : lookup sum256 ctx original t ≡ ((lookup sum256 ctx original t).0, t) =
        ap (λ s. ((lookup sum256 ctx original t).0, s)) same in
      conclude-Shortened (lookup sum256 ctx original t).0 t t' u looked found (
        ap (conclude sum256 table_urls table_requests ctx st log_st original agent) (sym looked)
        ∙ h)
