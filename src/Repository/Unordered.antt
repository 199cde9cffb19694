-- ===== src/Repository/Unordered.antt =====
-- The repositories on tables whose rows have no order: a specification above the bare tables.
use mathlib.Core.Quot
use mathlib.Core.Quot.{Quot, Quot-set}
use native.Mathlib.Nat.{ℕ_set}
use text.Mathlib.TextEquality.{IsScalar-prop}
use production_ready_url_sho.Common.{ℕ, String, ◌∙◌, refl, ap}
use production_ready_url_sho.Failure.{Result}
use production_ready_url_sho.Context.{with_timeout}
use production_ready_url_sho.Model.{Url}
use production_ready_url_sho.Sql.{
  Command, insert_url, update_last_used, delete_unused, insert_request, Tables, execute,
}
use production_ready_url_sho.Sql.Selecting.{find_live}
use production_ready_url_sho.Sql.Unordered.{
  SameRows, find_live-Permᴰ, execute-result, execute-SameRows,
}
use production_ready_url_sho.Repository.{
  UrlRepository, RequestRepository, db_call_timeout, done, kept, request_row, new_url_repository,
  new_request_repository,
}
use production_ready_url_sho.Dbtx.{Router}
use production_ready_url_sho.Repository.Postgres.{RouterLaws}
use production_ready_url_sho.Repository.Calm.{
  Simulates, new_url_repository-refines, new_request_repository-refines, looked_up, table_urls,
  table_requests, UrlRefines, RequestRefines,
}

-- Tables up to the order of their rows, where these are consistent.
abbrev pub Contents : Type 0
Contents = Quot SameRows

pub Result-set : {A : Type 0} → IsSet A → IsSet (Result A)
Result-set a_set = hlevel (a_set, ℕ_set, IsScalar-prop)

pub Url-set : IsSet Url
Url-set = hlevel (ℕ_set, IsScalar-prop)

affected : Command → Contents → Result ℕ
affected c = Quot.lift (Result-set ℕ_set) (λ t. (execute c t).0) (execute-result c)

executed : Command → Contents → Contents
executed c =
    Quot.lift Quot-set (λ t. Quot.mk (execute c t).1)
      (λ t t' h. Quot.sound (execute-SameRows c t t' h))

resolve : String → Contents → Result Url
resolve key =
    Quot.lift (Result-set Url-set) (λ t. looked_up (find_live key t.urls))
      (λ t t' h. ap looked_up (find_live-Permᴰ key h.urls h.consistent))

-- The repositories of `table_urls` and `table_requests`, on contents.
unfoldable pub contents_urls : UrlRepository Contents
unfolding affected executed resolve
contents_urls = record {
  create = λ ctx u q. (done (affected (insert_url u) q), executed (insert_url u) q);
  get_by_short_key = λ ctx key q. (resolve key q, q);
  update_last_used = λ ctx now id q.
      (done (affected (update_last_used now id) q), executed (update_last_used now id) q);
  delete_unused_since = λ ctx now cutoff q.
      (affected (delete_unused now cutoff) q, executed (delete_unused now cutoff) q);
}

unfoldable pub contents_requests : RequestRepository Contents
unfolding affected executed
contents_requests = record {
  log_create_request = λ ctx st id agent q.
      let req = request_row (with_timeout ctx db_call_timeout) st id agent in
      (kept req (affected (insert_request req) q), executed (insert_request req) q);
}

abbrev pub contents : Tables → Contents
contents t = Quot.mk t

pub table_urls-unordered : UrlRefines contents (λ t. Unit {0}) table_urls contents_urls
unfolding contents_urls
table_urls-unordered = record {
  create = λ ctx u. record { result = λ t h. refl; after = λ t h. refl; keeps = λ t h. tt };
  get = λ ctx key. record { result = λ t h. refl; after = λ t h. refl; keeps = λ t h. tt };
  update = λ ctx now id. record { result = λ t h. refl; after = λ t h. refl; keeps = λ t h. tt };
  delete =
      λ ctx now cutoff. record { result = λ t h. refl; after = λ t h. refl; keeps = λ t h. tt };
}

pub table_requests-unordered :
    RequestRefines contents (λ t. Unit {0}) table_requests contents_requests
unfolding contents_requests
table_requests-unordered = record {
  log = λ ctx st id agent. record { result = λ t h. refl; after = λ t h. refl; keeps = λ t h. tt };
}

refines-trans :
    {S T U A : Type 0} {view : S → T} {view' : T → U} {Inv : S → Type 0} {m : S → A × S}
    {n : T → A × T} {o : U → A × U}
    → Simulates view Inv m n
    → Simulates view' (λ t. Unit {0}) n o
    → Simulates (λ s. view' (view s)) Inv m o
refines-trans {view = view} {view' = view'} h k = record {
  result = λ s inv. h.result s inv ∙ k.result (view s) tt;
  after = λ s inv. ap view' (h.after s inv) ∙ k.after (view s) tt;
  keeps = h.keeps;
}

module _ {S : Type 0} (router : Router S) (laws : RouterLaws router) where
  -- What is left of a state: its tables, up to the order of their rows.
  abbrev pub stored_in : S → Contents
  stored_in s = contents (laws.tables s)

  -- While no call fails, the repository of URLs built on any router over a Postgres does what the
  -- repository on contents does, that is, on the rows as they are, whatever order the tables hold
  -- them in: the results are the same, and the contents that they leave.
  pub new_url_repository-unordered :
      UrlRefines stored_in laws.IsCalm (new_url_repository router) contents_urls
  new_url_repository-unordered =
      let h = new_url_repository-refines router laws in
      let k = table_urls-unordered in
      record {
        create = λ ctx u. refines-trans (h.create ctx u) (k.create ctx u);
        get = λ ctx key. refines-trans (h.get ctx key) (k.get ctx key);
        update = λ ctx now id. refines-trans (h.update ctx now id) (k.update ctx now id);
        delete =
            λ ctx now cutoff. refines-trans (h.delete ctx now cutoff) (k.delete ctx now cutoff);
      }

  pub new_request_repository-unordered :
      RequestRefines stored_in laws.IsCalm (new_request_repository router) contents_requests
  new_request_repository-unordered =
      let h = new_request_repository-refines router laws in
      record {
        log = λ ctx st id agent.
            refines-trans (h.log ctx st id agent) (table_requests-unordered.log ctx st id agent);
      }
