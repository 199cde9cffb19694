-- ===== src/Service/Lifecycle/Concurrent.antt =====
-- Requests that run at the same time: the statements of others come between the lookups of a
-- `ShortenURL`, its insertion and a later `Redirect`.
use production_ready_url_sho.Common.{
  ℕ, suc, ◌≡◌, ◌∙◌, refl, sym, ap, String, List, ◌∷◌, some, All, false, arith, ltb, chars,
  Bool-cases, inl, inr,
}
use production_ready_url_sho.Failure.{Result, ok, err, wrapped}
use production_ready_url_sho.Context.{Ctx}
use production_ready_url_sho.Model.{Stamp, Url, new_url}
use production_ready_url_sho.Keygen.{max_collision_retries}
use production_ready_url_sho.Sql.{
  Command, Tables, insert_into_urls, unique_violation, is_live, execute, columns, has_live_key,
}
use production_ready_url_sho.Sql.Selecting.{find_live, find_live-none}
use production_ready_url_sho.Sql.Lasting.{Spares, run_all, LeadsTo, LeadsTo-run_all}
use production_ready_url_sho.Repository.{filled}
use production_ready_url_sho.Repository.Calm.{table_urls, table_requests}
use production_ready_url_sho.Service.{Probe, existing, free, failed, conclude, store, redirect}
use production_ready_url_sho.Service.OnTables.{log_request-urls, Found, probe-Found}
use production_ready_url_sho.Service.Lifecycle.Shortened.{lookup, store-created}
use production_ready_url_sho.Service.Lifecycle.Returning.{redirect-found, find_self}

module _ (sum256 : String → List ℕ) (ctx : Ctx) (st log_st : Stamp) (original agent : String) where
  -- What `ShortenURL` does with the result of its lookups, on the tables as they are by then.
  abbrev pub conclude_on : Probe → Tables → Result Url × Tables
  conclude_on p t = conclude sum256 table_urls table_requests ctx st log_st original agent (p, t)

  existing-LeadsTo :
      (v row : Url) (t : Tables)
      → find_live v.short_key t.urls ≡ some row
      → v ≡ filled (columns row)
      → row.url ≡ original
      → LeadsTo v.short_key original v.id t.urls
  existing-LeadsTo v row t there same known = record {
    row = row;
    found = there;
    target = known;
    named = ap (λ (w : Url). w.id) (sym same);
  }

  created-LeadsTo :
      (key : String) (u : Url) (us us' : List Url)
      → u ≡ new_url st original key
      → us' ≡ u ∷ us
      → LeadsTo u.short_key original u.id us'
  unfolding new_url
  created-LeadsTo key u us us' same after = record {
    row = u;
    found = ap (find_live u.short_key) after ∙ find_self u us (ap (λ v. is_live v) same);
    target = ap (λ (v : Url). v.url) same;
    named = refl;
  }

  conclude-LeadsTo :
      (p : Probe) (cs : List Command) (t t' : Tables) (u : Url)
      → Found sum256 ctx original t p
      → All Spares cs
      → conclude_on p (run_all cs t) ≡ (ok u, t')
      → LeadsTo u.short_key original u.id t'.urls
  unfolding conclude
  conclude-LeadsTo (existing v) cs t t' u (row, there, same, known) fine h =
      let e : v ≡ u = cc h in
      let later =
        LeadsTo-run_all v.short_key original v.id cs t fine
          (existing-LeadsTo v row t there same known) in
      let urls : t'.urls ≡ (run_all cs t).urls =
        ap (λ (x : Result Url × Tables). x.1.urls) (sym h)
        ∙ log_request-urls sum256 ctx log_st v.id agent (run_all cs t) in
      rw urls (rw (← e) later)
  conclude-LeadsTo (free key) cs t t' u _ fine h =
      let (same, room, fits, after) =
        store-created sum256 ctx st log_st original agent key u (run_all cs t) t' h in
      created-LeadsTo key u (run_all cs t).urls t'.urls same after
  conclude-LeadsTo (failed e) cs t t' u f fine h = absurd f

  -- A link lasts under concurrency: other clients' statements of any kind but a cleanup may come
  -- between the lookups of a `ShortenURL` and its insertion, and any number after it; if it
  -- succeeds, the short key that it returned leads to the URL that was shortened, by the row that
  -- was returned.
  pub links_last :
      (t t' : Tables) (before after : List Command) (u : Url) (ctx' : Ctx)
      → All Spares before
      → All Spares after
      → conclude_on (lookup sum256 ctx original t).0 (run_all before t) ≡ (ok u, t')
      → (redirect table_urls ctx' u.short_key (run_all after t')).0
        ≡ record { target = ok original; spawned = some u.id }
  links_last t t' before after u ctx' fine fine' h =
      let (_, found) = probe-Found sum256 ctx original (suc max_collision_retries) 0 t in
      let there = conclude-LeadsTo (lookup sum256 ctx original t).0 before t t' u found fine h in
      let last = LeadsTo-run_all u.short_key original u.id after t' fine' there in
      ap (λ x. x.0) (redirect-found ctx' u.short_key (run_all after t') last.row last.found)
      ∙ cc (last.target, last.named)

insert_seen :
    (u row : Url) (t : Tables)
    → ltb 11 (chars u.short_key) ≡ false
    → find_live u.short_key t.urls ≡ some row
    → insert_into_urls u t ≡ (err unique_violation, t)
unfolding insert_into_urls
insert_seen u row t fits there = elim (Bool-cases (has_live_key u.short_key t.urls)) [
  | inl full ↦ ground arith
  | inr room ↦ cc (there, (find_live-none u.short_key t.urls).1 room)
]

module _ (sum256 : String → List ℕ) (original : String) where
  conclude_seen :
      (ctx : Ctx) (st log_st : Stamp) (agent key : String) (row : Url) (t : Tables)
      → ltb 11 (chars key) ≡ false
      → find_live key t.urls ≡ some row
      → conclude_on sum256 ctx st log_st original agent (free key) t
        ≡ (err (wrapped "create url" unique_violation), t)
  unfolding conclude store execute new_url
  conclude_seen ctx st log_st agent key row t fits there =
      rw (insert_seen (new_url st original key) row t fits there) refl

  -- A creation that succeeds stores its row under the key, and leads to the URL whatever statements
  -- but a cleanup come after it.
  pub created_lasts :
      (ctx : Ctx) (st log_st : Stamp) (agent key : String) (t t' : Tables) (after : List Command)
      (u : Url)
      → conclude_on sum256 ctx st log_st original agent (free key) t ≡ (ok u, t')
      → All Spares after
      → (u.short_key ≡ key)
        × (ltb 11 (chars key) ≡ false)
        × LeadsTo u.short_key original u.id (run_all after t').urls
  unfolding conclude new_url
  created_lasts ctx st log_st agent key t t' after u h fine =
      let (same, room, fits, stored) =
        store-created sum256 ctx st log_st original agent key u t t' h in
      let there =
        created-LeadsTo sum256 ctx st log_st original agent key u t.urls t'.urls same stored in
      (
        ap (λ (v : Url). v.short_key) same,
        fits,
        LeadsTo-run_all u.short_key original u.id after t' fine there,
      )

  -- Once a creation under a key has succeeded, a second one under it fails, whatever statements but a
  -- cleanup come between.
  pub second_fails :
      (ctx ctx' : Ctx) (st log_st st' log_st' : Stamp) (agent agent' key : String) (t t' : Tables)
      (between : List Command) (u : Url)
      → conclude_on sum256 ctx st log_st original agent (free key) t ≡ (ok u, t')
      → All Spares between
      → conclude_on sum256 ctx' st' log_st' original agent' (free key) (run_all between t')
        ≡ (err (wrapped "create url" unique_violation), run_all between t')
  second_fails ctx ctx' st log_st st' log_st' agent agent' key t t' between u h fine =
      let (named, fits, last) = created_lasts ctx st log_st agent key t t' between u h fine in
      conclude_seen ctx' st' log_st' agent' key last.row (run_all between t') fits
        (ap (λ x. find_live x (run_all between t').urls) (sym named) ∙ last.found)

  -- Two clients shorten the same new URL at the same time, and the lookups of both end, on the
  -- same tables, with the same free key. Once one has succeeded, the other, whatever statements but
  -- a cleanup come between, fails with the violation of the unique index and changes nothing,
  -- although the URL is stored by then.
  pub race_loser_fails :
      (ctx ctx' : Ctx) (st log_st st' log_st' : Stamp) (agent agent' key : String) (t t' : Tables)
      (between : List Command) (u : Url)
      → lookup sum256 ctx original t ≡ (free key, t)
      → lookup sum256 ctx' original t ≡ (free key, t)
      → conclude_on sum256 ctx st log_st original agent (lookup sum256 ctx original t).0 t
        ≡ (ok u, t')
      → All Spares between
      → conclude_on sum256 ctx' st' log_st' original agent'
          (lookup sum256 ctx' original t).0
          (run_all between t')
        ≡ (err (wrapped "create url" unique_violation), run_all between t')
  race_loser_fails ctx ctx' st log_st st' log_st' agent agent' key t t' between u one two h fine =
      let h' : conclude_on sum256 ctx st log_st original agent (free key) t ≡ (ok u, t') =
        rw one at h in
      rw two (second_fails ctx ctx' st log_st st' log_st' agent agent' key t t' between u h' fine)
