-- ===== src/Service/Lagging.antt =====
-- Shortening and following while the replica lags behind the primary.
use production_ready_url_sho.Common.{
  ℕ, zero, suc, ◌≡◌, ◌∙◌, refl, sym, ap, String, List, none, some, All, Bool-cases, inl, inr, ◌==◌,
}
use production_ready_url_sho.Failure.{Result, ok, err, wrapped, sentinel, not_found, is}
use production_ready_url_sho.Context.{Ctx}
use production_ready_url_sho.Model.{Stamp, Url, new_url}
use production_ready_url_sho.Keygen.{short_key_from_url, max_collision_retries}
use production_ready_url_sho.Keygen.Decimal.{salted}
use production_ready_url_sho.Sql.{Command, Tables, unique_violation}
use production_ready_url_sho.Sql.Selecting.{find_live}
use production_ready_url_sho.Sql.Lasting.{Spares, run_all}
use production_ready_url_sho.Repository.Calm.{table_urls, table_requests}
use production_ready_url_sho.Repository.Copied.{
  Copies, on_primary_copy, copy_urls, copy_requests, caught_up,
}
use production_ready_url_sho.Service.{
  Probe, existing, free, failed, settle, probe, log_request, store, conclude, shorten_url, redirect,
  Redirection,
}
use production_ready_url_sho.Service.Lifecycle.Shortened.{lookup}
use production_ready_url_sho.Service.Lifecycle.Concurrent.{conclude_on, created_lasts, second_fails}
use production_ready_url_sho.Service.Lifecycle.Returning.{redirect-found}
use production_ready_url_sho.Service.OnTables.{round_none}

module _ (sum256 : String → List ℕ) (ctx : Ctx) (original : String) where
  settle-copies :
      (key : String) (retry : Copies → Probe × Copies) (again : Tables → Probe × Tables)
      (c : Copies)
      → retry c ≡ ((again c.replica).0, c)
      → (r : Result Url)
      → settle original key retry (r, c) ≡ ((settle original key again (r, c.replica)).0, c)
  unfolding settle
  settle-copies key retry again c h (ok u) = elim (Bool-cases (u.url == original)) [
    | inl same ↦ rw same refl
    | inr other ↦ rw other h
  ]
  settle-copies key retry again c h (err e) = elim (Bool-cases (is e not_found)) [
    | inl missing ↦ rw missing refl
    | inr broken ↦ rw broken refl
  ]

  -- The loop reads the replica alone.
  probe-copies :
      (rounds attempt : ℕ) (key : String) (c : Copies)
      → probe sum256 copy_urls ctx original rounds attempt key c
        ≡ ((probe sum256 table_urls ctx original rounds attempt key c.replica).0, c)
  unfolding probe
  probe-copies zero attempt key c = refl
  probe-copies (suc rounds) attempt key c =
      let next = short_key_from_url sum256 (salted original (suc attempt)) in
      settle-copies key (probe sum256 copy_urls ctx original rounds (suc attempt) next)
        (probe sum256 table_urls ctx original rounds (suc attempt) next) c
        (probe-copies rounds (suc attempt) next c) (table_urls.get_by_short_key ctx key c.replica).0

  module _ (st log_st : Stamp) (agent : String) where
    store-copies :
        (u : Url) (r : Result (Unit {0})) (c : Copies) (t : Tables)
        → store sum256 copy_urls copy_requests ctx log_st agent u (r, record c { primary = t })
          ≡ on_primary_copy
              (λ t. store sum256 table_urls table_requests ctx log_st agent u (r, t))
              (record c { primary = t })
    unfolding store log_request
    store-copies u (ok _) c t = refl
    store-copies u (err e) c t = refl

    -- What follows the loop touches the primary alone.
    conclude-copies :
        (p : Probe) (c : Copies)
        → conclude sum256 copy_urls copy_requests ctx st log_st original agent (p, c)
          ≡ on_primary_copy (conclude_on sum256 ctx st log_st original agent p) c
    unfolding conclude log_request
    conclude-copies (existing u) c = refl
    conclude-copies (free key) c =
        let u = new_url st original key in
        let (r, t) = table_urls.create ctx u c.primary in store-copies u r c t
    conclude-copies (failed e) c = refl

    -- `ShortenURL` decides on the replica and acts on the primary.
    pub shorten_url-copies :
        (c : Copies)
        → shorten_url sum256 copy_urls copy_requests ctx st log_st original agent c
          ≡ on_primary_copy
              (conclude_on sum256 ctx st log_st original agent
                (lookup sum256 ctx original c.replica).0)
              c
    unfolding shorten_url
    shorten_url-copies c =
        ap (conclude sum256 copy_urls copy_requests ctx st log_st original agent)
          (probe-copies (suc max_collision_retries) 0 (short_key_from_url sum256 original) c)
        ∙ conclude-copies (lookup sum256 ctx original c.replica).0 c

-- The answer to a key that is not known.
abbrev pub unknown : Redirection
unknown = record { target = err (sentinel not_found); spawned = none }

redirect-copies :
    (ctx : Ctx) (key : String) (c : Copies)
    → (redirect copy_urls ctx key c).0 ≡ (redirect table_urls ctx key c.replica).0
unfolding redirect
redirect-copies ctx key c = refl

redirect-unknown :
    (ctx : Ctx) (key : String) (t : Tables)
    → find_live key t.urls ≡ none
    → (redirect table_urls ctx key t).0 ≡ unknown
unfolding redirect
redirect-unknown ctx key t h = rw h refl

-- The two halves of a state after an operation on the primary.
parts :
    (x : Result Url × Tables) (c c' : Copies) (u : Url)
    → ◌≡◌ {A = Result Url × Copies} (x.0, record c { primary = x.1 }) (ok u, c')
    → (x ≡ (ok u, c'.primary)) × (c'.replica ≡ c.replica)
parts x c c' u h =
    let result : x.0 ≡ ok u = ap (λ (y : Result Url × Copies). y.0) h in
    let first : x.1 ≡ c'.primary = ap (λ (y : Result Url × Copies). y.1.primary) h in
    (λ i. (result i, first i), sym (ap (λ (y : Result Url × Copies). y.1.replica) h))

module _ (sum256 : String → List ℕ) (original : String) where
  lookup-unknown :
      (ctx : Ctx) (t : Tables)
      → find_live (short_key_from_url sum256 original) t.urls ≡ none
      → (lookup sum256 ctx original t).0 ≡ free (short_key_from_url sum256 original)
  lookup-unknown ctx t h =
      ap (λ (x : Probe × Tables). x.0) (round_none sum256 ctx original max_collision_retries 0 t h)

  shorten-unknown :
      (ctx : Ctx) (st log_st : Stamp) (agent : String) (c : Copies)
      → find_live (short_key_from_url sum256 original) c.replica.urls ≡ none
      → shorten_url sum256 copy_urls copy_requests ctx st log_st original agent c
        ≡ on_primary_copy
            (conclude_on sum256 ctx st log_st original agent
              (free (short_key_from_url sum256 original)))
            c
  shorten-unknown ctx st log_st agent c h =
      shorten_url-copies sum256 ctx original st log_st agent c
      ∙ ap (λ p. on_primary_copy (conclude_on sum256 ctx st log_st original agent p) c)
          (lookup-unknown ctx c.replica h)

  -- A new URL is shortened while the replica has no row under its key. Until the replica catches up,
  -- whatever statements but a cleanup the primary runs meanwhile, its short key is answered with
  -- "not found", and to shorten the URL again fails with the violation of the unique index and
  -- changes nothing. Once the replica has caught up, the short key leads to the URL.
  pub lagging_replica :
      (ctx ctx' ctx'' : Ctx) (st log_st st' log_st' : Stamp) (agent agent' : String) (c c' : Copies)
      (between : List Command) (u : Url)
      → find_live (short_key_from_url sum256 original) c.replica.urls ≡ none
      → shorten_url sum256 copy_urls copy_requests ctx st log_st original agent c ≡ (ok u, c')
      → All Spares between
      → let d = record c' { primary = run_all between c'.primary } in
        ((redirect copy_urls ctx'' u.short_key d).0 ≡ unknown)
        × (shorten_url sum256 copy_urls copy_requests ctx' st' log_st' original agent' d
            ≡ (err (wrapped "create url" unique_violation), d))
        × ((redirect copy_urls ctx'' u.short_key (caught_up d)).0
            ≡ record { target = ok original; spawned = some u.id })
  lagging_replica ctx ctx' ctx'' st log_st st' log_st' agent agent' c c' between u new h fine =
      let key = short_key_from_url sum256 original in
      let d : Copies = record c' { primary = run_all between c'.primary } in
      let x = conclude_on sum256 ctx st log_st original agent (free key) c.primary in
      let (created, old) = parts x c c' u (sym (shorten-unknown ctx st log_st agent c new) ∙ h) in
      let (named, fits, last) =
        created_lasts sum256 original ctx st log_st agent key c.primary c'.primary between u created
          fine in
      let again =
        second_fails sum256 original ctx ctx' st log_st st' log_st' agent agent' key c.primary
          c'.primary between u created fine in
      let still : find_live key d.replica.urls ≡ none =
        ap (λ (t : Tables). find_live key t.urls) old ∙ new in
      (
        redirect-copies ctx'' u.short_key d
            ∙ redirect-unknown ctx'' u.short_key d.replica
                (ap (λ k. find_live k d.replica.urls) named ∙ still),
        shorten-unknown ctx' st' log_st' agent' d still
            ∙ ap (λ (y : Result Url × Tables). (y.0, record d { primary = y.1 })) again,
        redirect-copies ctx'' u.short_key (caught_up d)
            ∙ ap (λ x. x.0) (redirect-found ctx'' u.short_key d.primary last.row last.found)
            ∙ cc (last.target, last.named),
      )
