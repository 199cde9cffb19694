-- ===== src/Repository/Calm.antt =====
-- On a database in fair weather the repositories refine functions on the tables.
use production_ready_url_sho.Common.{
  ℕ, String, ◌≡◌, refl, ap, Option, none, some, List, [], ◌∷◌, map, keep, Bool-cases, inl, inr,
}
use production_ready_url_sho.Failure.{Result, ok, err, sentinel, not_found, is}
use production_ready_url_sho.Context.{Ctx, with_timeout}
use production_ready_url_sho.Model.{Stamp, Url}
use production_ready_url_sho.Sql.{
  Command, insert_url, update_last_used, delete_unused, insert_request, select_by_short_key, Tables,
  execute, select, columns, answers,
}
use production_ready_url_sho.Sql.Selecting.{find_live}
use production_ready_url_sho.Dbtx.{rows_to_row, Router}
use production_ready_url_sho.Database.{query_row, scan}
use production_ready_url_sho.Repository.{
  UrlRepository, RequestRepository, db_call_timeout, done, filled, found, kept, request_row,
  new_url_repository, new_request_repository,
}
use production_ready_url_sho.Repository.Postgres.{RouterLaws}

abbrev pub looked_up : Option Url → Result Url
looked_up none = err (sentinel not_found)
looked_up (some u) = ok (filled (columns u))

-- The specification: the repositories on bare tables.
abbrev pub table_urls : UrlRepository Tables
table_urls = record {
  create = λ ctx u t. (done (execute (insert_url u) t).0, (execute (insert_url u) t).1);
  get_by_short_key = λ ctx key t. (looked_up (find_live key t.urls), t);
  update_last_used = λ ctx now id t.
      (done (execute (update_last_used now id) t).0, (execute (update_last_used now id) t).1);
  delete_unused_since = λ ctx now cutoff t. execute (delete_unused now cutoff) t;
}

abbrev pub table_requests : RequestRepository Tables
table_requests = record {
  log_create_request = λ ctx st id agent t.
      let req = request_row (with_timeout ctx db_call_timeout) st id agent in
      (kept req (execute (insert_request req) t).0, (execute (insert_request req) t).1);
}

-- `m` does what `n` does, seen through `view`, and keeps the invariant.
pub record Simulates {S T A : Type 0} (view : S → T) (Inv : S → Type 0) (m : S → A × S)
    (n : T → A × T) : Type 0 where
  pub result : (s : S) → Inv s → (m s).0 ≡ (n (view s)).0
  pub after : (s : S) → Inv s → view (m s).1 ≡ (n (view s)).1
  pub keeps : (s : S) → Inv s → Inv (m s).1

pub record UrlRefines {S T : Type 0} (view : S → T) (Inv : S → Type 0) (repo : UrlRepository S)
    (spec : UrlRepository T) : Type 0 where
  pub create : (ctx : Ctx) (u : Url) → Simulates view Inv (repo.create ctx u) (spec.create ctx u)
  pub get :
      (ctx : Ctx) (key : String)
      → Simulates view Inv (repo.get_by_short_key ctx key) (spec.get_by_short_key ctx key)
  pub update :
      (ctx : Ctx) (now : ℕ) (id : String)
      → Simulates view Inv (repo.update_last_used ctx now id) (spec.update_last_used ctx now id)
  pub delete :
      (ctx : Ctx) (now cutoff : ℕ)
      → Simulates view Inv
          (repo.delete_unused_since ctx now cutoff)
          (spec.delete_unused_since ctx now cutoff)

pub record RequestRefines {S T : Type 0} (view : S → T) (Inv : S → Type 0)
    (repo : RequestRepository S) (spec : RequestRepository T) : Type 0 where
  pub log :
      (ctx : Ctx) (st : Stamp) (id agent : String)
      → Simulates view Inv
          (repo.log_create_request ctx st id agent)
          (spec.log_create_request ctx st id agent)

pub scan-delivered :
    (key : String) (us : List Url)
    → found (
        scan (
          rows_to_row
            (record { items = map ok (map columns (keep (answers key) us)); failure = none })))
      ≡ looked_up (find_live key us)
unfolding scan find_live found is
scan-delivered key [] = refl
scan-delivered key (u ∷ us) = elim (Bool-cases (answers key u)) [
  | inl yes_it ↦ rw yes_it
  | inr not_it ↦ rw not_it (scan-delivered key us)
]

module _ {S : Type 0} (router : Router S) (laws : RouterLaws router) where
  get-Simulates :
      (ctx : Ctx) (key : String)
      → Simulates laws.tables laws.IsCalm
          ((new_url_repository router).get_by_short_key ctx key)
          (table_urls.get_by_short_key ctx key)
  unfolding new_url_repository query_row select
  get-Simulates ctx key =
      let q = select_by_short_key key in
      let ctx' = with_timeout ctx db_call_timeout in
      record {
        result =
            λ s calm. rw (laws.read_calm ctx' q s calm).0 (scan-delivered key (laws.tables s).urls);
        after = λ s calm. laws.read_pure ctx' q s;
        keeps = λ s calm. (laws.read_calm ctx' q s calm).1;
      }

  -- While no call fails, the repository of URLs built on any router over a Postgres returns what
  -- the same statements return on bare tables and leaves the tables that they leave.
  pub new_url_repository-refines :
      UrlRefines laws.tables laws.IsCalm (new_url_repository router) table_urls
  unfolding new_url_repository
  new_url_repository-refines =
      let run = λ (ctx : Ctx) (cmd : Command) (s : S) (calm : laws.IsCalm s).
        laws.exec_calm (with_timeout ctx db_call_timeout) cmd s calm in
      record {
        create = λ ctx u. record {
          result = λ s calm. ap done (run ctx (insert_url u) s calm).0;
          after = λ s calm. (run ctx (insert_url u) s calm).1;
          keeps = λ s calm. (run ctx (insert_url u) s calm).2;
        };
        get = get-Simulates;
        update = λ ctx now id. record {
          result = λ s calm. ap done (run ctx (update_last_used now id) s calm).0;
          after = λ s calm. (run ctx (update_last_used now id) s calm).1;
          keeps = λ s calm. (run ctx (update_last_used now id) s calm).2;
        };
        delete = λ ctx now cutoff. record {
          result = λ s calm. (run ctx (delete_unused now cutoff) s calm).0;
          after = λ s calm. (run ctx (delete_unused now cutoff) s calm).1;
          keeps = λ s calm. (run ctx (delete_unused now cutoff) s calm).2;
        };
      }

  pub new_request_repository-refines :
      RequestRefines laws.tables laws.IsCalm (new_request_repository router) table_requests
  unfolding new_request_repository
  new_request_repository-refines = record {
    log = λ ctx st id agent.
        let ctx' = with_timeout ctx db_call_timeout in
        let req = request_row ctx' st id agent in
        let run = laws.exec_calm ctx' (insert_request req) in
        record {
          result = λ s calm. ap (kept req) (run s calm).0;
          after = λ s calm. (run s calm).1;
          keeps = λ s calm. (run s calm).2;
        };
  }
