-- ===== src/Repository/Integrity.antt =====
-- What the repositories keep whatever fails: `Exec` may report an error before or after the
-- statement took effect.
use production_ready_url_sho.Common.{
  ℕ, String, ◌≡◌, ◌⊎◌, inl, inr, refl, ◌∷◌, Bool-cases, ltb, chars, ◌||◌,
}
use production_ready_url_sho.Failure.{GoError, Result, ok, err}
use production_ready_url_sho.Context.{Ctx, with_timeout}
use production_ready_url_sho.Model.{Stamp, Url}
use production_ready_url_sho.Sql.{
  Command, insert_url, update_last_used, delete_unused, insert_request, select_by_short_key, Tables,
  execute, as_inserted, string_too_long, unique_violation, has_id, has_live_key, insert_into_urls,
}
use production_ready_url_sho.Sql.Constraints.{IsConsistent, execute-IsConsistent}
use production_ready_url_sho.Dbtx.{Router}
use production_ready_url_sho.Database.{query_row}
use production_ready_url_sho.Repository.{
  db_call_timeout, done, request_row, new_url_repository, new_request_repository,
}
use production_ready_url_sho.Repository.Postgres.{Exec, ran, refused, lost, RouterLaws}

Exec-IsConsistent :
    {t t' : Tables} {cmd : Command} {r : Result ℕ}
    → Exec t cmd r t'
    → IsConsistent t.urls
    → IsConsistent t'.urls
Exec-IsConsistent {t} {cmd} (ran _ e) h = rw e (execute-IsConsistent cmd t h)
Exec-IsConsistent (refused _ _ e) h = rw e h
Exec-IsConsistent {t} {cmd} (lost _ _ e) h = rw e (execute-IsConsistent cmd t h)

-- What a result of `Create` says of the table.
abbrev pub Created : Url → Tables → Tables → Result (Unit {0}) → Type 0
Created u t t' (ok _) = t'.urls ≡ as_inserted u ∷ t.urls
Created u t t' (err _) = (t'.urls ≡ t.urls) ⊎ (t'.urls ≡ as_inserted u ∷ t.urls)

pub insert-cases :
    (u : Url) (t : Tables)
    → (insert_into_urls u t ≡ (ok 1, record t { urls = as_inserted u ∷ t.urls }))
      ⊎ ((e : GoError) × (insert_into_urls u t ≡ (err e, t)))
unfolding insert_into_urls
insert-cases u t = elim (Bool-cases (ltb 11 (chars u.short_key))) [
  | inl long ↦ inr (string_too_long, rw long)
  | inr fits ↦ elim (Bool-cases (has_id u.id t.urls || has_live_key u.short_key t.urls)) [
    | inl taken ↦ inr (unique_violation, rw (fits, taken))
    | inr free ↦ inl (rw (fits, free))
  ]
]

Exec-Created :
    (u : Url) (t t' : Tables) (r : Result ℕ) → Exec t (insert_url u) r t' → Created u t t' (done r)
unfolding execute
Exec-Created u t t' r (ran p q) = elim (insert-cases u t) [
  | inl e ↦ rw (p, q, e) refl
  | inr (x, e) ↦ rw (p, q, e) (inl refl)
]
Exec-Created u t t' r (refused e p q) = rw (p, q) (inl refl)
Exec-Created u t t' r (lost e p q) = elim (insert-cases u t) [
  | inl i ↦ rw (p, q, i) (inr refl)
  | inr (x, i) ↦ rw (p, q, i) (inl refl)
]

module _ {S : Type 0} (router : Router S) (laws : RouterLaws router) where
  abbrev pub Sound : S → Type 0
  Sound s = IsConsistent (laws.tables s).urls

  write-Sound :
      (ctx : Ctx) (cmd : Command) (s : S) → Sound s → Sound (router.writer.exec ctx cmd s).1
  write-Sound ctx cmd s h = Exec-IsConsistent (laws.exec_honest ctx cmd s) h

  -- If the stored URLs are consistent, with no identifier twice and no live short key twice, then
  -- they are so after every operation of the two repositories, failing or not.
  pub operations-Sound :
      (ctx : Ctx) (s : S)
      → Sound s
      → ((u : Url) → Sound ((new_url_repository router).create ctx u s).1)
        × ((key : String) → Sound ((new_url_repository router).get_by_short_key ctx key s).1)
        × ((now : ℕ) (id : String)
            → Sound ((new_url_repository router).update_last_used ctx now id s).1)
        × ((now cutoff : ℕ)
            → Sound ((new_url_repository router).delete_unused_since ctx now cutoff s).1)
        × ((st : Stamp) (id agent : String)
            → Sound ((new_request_repository router).log_create_request ctx st id agent s).1)
  unfolding new_url_repository new_request_repository query_row
  operations-Sound ctx s h =
      let ctx' = with_timeout ctx db_call_timeout in
      (
        λ u. write-Sound ctx' (insert_url u) s h,
        λ key. rw (laws.read_pure ctx' (select_by_short_key key) s) h,
        λ now id. write-Sound ctx' (update_last_used now id) s h,
        λ now cutoff. write-Sound ctx' (delete_unused now cutoff) s h,
        λ st id agent. write-Sound ctx' (insert_request (request_row ctx' st id agent)) s h,
      )

  -- Creating a URL is all or nothing, and a success is what it says: after a success the table has
  -- one row more, the URL with no deletion time; after an error it has that row more or is as before.
  pub create-all_or_nothing :
      (ctx : Ctx) (u : Url) (s : S)
      → let (r, s') = (new_url_repository router).create ctx u s in
        Created u (laws.tables s) (laws.tables s') r
  unfolding new_url_repository
  create-all_or_nothing ctx u s =
      Exec-Created u _ _ _ (laws.exec_honest (with_timeout ctx db_call_timeout) (insert_url u) s)
