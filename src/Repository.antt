-- ===== src/Repository.antt =====
-- internal/repository: the repositories over a `Router` (url_repo.go, url_repo_impl.go,
-- request_repo.go, request_repo_impl.go, repo.go). What `time.Now` returns is an argument.
pub mod Postgres
pub mod Calm
pub mod Copied
pub mod Integrity
pub mod Unordered
pub mod Deadlines
use production_ready_url_sho.Common.{ℕ, ◌*◌, String, if◌then◌else◌}
use production_ready_url_sho.Failure.{sentinel, no_rows, not_found, is, Result, ok, err}
use production_ready_url_sho.Context.{Ctx, second, with_timeout, get_client_ip}
use production_ready_url_sho.Model.{Stamp, new_base, Url, zero_url, IncomingRequest}
use production_ready_url_sho.Sql.{
  insert_url, update_last_used, delete_unused, insert_request, select_by_short_key, Columns,
}
use production_ready_url_sho.Dbtx.{Router}
use production_ready_url_sho.Database.{query_row, scan}

abbrev pub db_call_timeout : ℕ
db_call_timeout = 5 * second

pub record UrlRepository (S : Type 0) : Type 0 where
  pub create : Ctx → Url → S → Result (Unit {0}) × S
  pub get_by_short_key : Ctx → String → S → Result Url × S
  pub update_last_used : Ctx → (now : ℕ) → (id : String) → S → Result (Unit {0}) × S
  pub delete_unused_since : Ctx → (now cutoff : ℕ) → S → Result ℕ × S

pub record RequestRepository (S : Type 0) : Type 0 where
  pub log_create_request :
      Ctx → Stamp → (url_id user_agent : String) → S → Result IncomingRequest × S

abbrev pub done : Result ℕ → Result (Unit {0})
done (ok n) = ok tt
done (err e) = err e

-- `Scan` fills five fields of a zero value.
abbrev pub filled : Columns → Url
filled c = record {
  base = record zero_url.base { id = c.id };
  url = c.original_url;
  short_key = c.short_key;
  last_used_at = c.last_used_at;
  is_active = c.is_active;
}

unfoldable pub found : Result Columns → Result Url
found (ok c) = ok (filled c)
found (err e) = if is e no_rows then err (sentinel not_found) else err e

abbrev pub kept {ℓ} : {A : Type ℓ} → A → Result ℕ → Result A
kept a (ok n) = ok a
kept a (err e) = err e

-- The row that `LogCreateRequest` inserts.
abbrev pub request_row : Ctx → Stamp → String → String → IncomingRequest
request_row ctx st url_id user_agent = record {
  base = new_base st;
  url_id = url_id;
  ip_address = get_client_ip ctx;
  user_agent = user_agent;
}

module _ {S : Type 0} (router : Router S) where
  create : Ctx → Url → S → Result (Unit {0}) × S
  create ctx url s =
      let (r, s') = router.writer.exec (with_timeout ctx db_call_timeout) (insert_url url) s in
      (done r, s')

  get_by_short_key : Ctx → String → S → Result Url × S
  unfolding found
  get_by_short_key ctx key s =
      let (side, s') = router.reader s in
      let (row, s'') =
        query_row side (with_timeout ctx db_call_timeout) (select_by_short_key key) s' in
      (found (scan row), s'')

  update_last_used_at : Ctx → ℕ → String → S → Result (Unit {0}) × S
  update_last_used_at ctx now id s =
      let (r, s') =
        router.writer.exec (with_timeout ctx db_call_timeout) (update_last_used now id) s in
      (done r, s')

  delete_unused_since : Ctx → ℕ → ℕ → S → Result ℕ × S
  delete_unused_since ctx now cutoff s =
      router.writer.exec (with_timeout ctx db_call_timeout) (delete_unused now cutoff) s

  log_create_request : Ctx → Stamp → String → String → S → Result IncomingRequest × S
  log_create_request ctx st url_id user_agent s =
      let ctx' = with_timeout ctx db_call_timeout in
      let req = request_row ctx' st url_id user_agent in
      let (r, s') = router.writer.exec ctx' (insert_request req) s in (kept req r, s')

  unfoldable pub new_url_repository : UrlRepository S
  unfolding create get_by_short_key update_last_used_at delete_unused_since
  new_url_repository = record {
    create = create;
    get_by_short_key = get_by_short_key;
    update_last_used = update_last_used_at;
    delete_unused_since = delete_unused_since;
  }

  unfoldable pub new_request_repository : RequestRepository S
  unfolding log_create_request
  new_request_repository = record { log_create_request = log_create_request }
