-- ===== src/Sql.antt =====
-- The SQL of internal/repository (url_repo_impl.go, request_repo_impl.go), read as functions on
-- the contents of the tables, with the constraints of migrations/. A table is a list of its rows,
-- the last inserted first; a foreign key, a primary key and the partial unique index
-- `urls_short_key_uidx` are checked as the schema declares them.
pub mod Constraints
pub mod Selecting
pub mod Lasting
pub mod Unordered
use production_ready_url_sho.Common.{
  ℕ, String, Bool, true, false, ◌&&◌, ◌||◌, Option, none, some, List, [], ◌∷◌, map, keep, length,
  ltb, chars, ◌==◌, if◌then◌else◌,
}
use production_ready_url_sho.Failure.{GoError, pg_error, Result, ok, err}
use production_ready_url_sho.Model.{Url, IncomingRequest}

-- The statements that are sent by `Exec`, with their arguments.
pub data Command : Type 0 where
  insert_url : Url → Command
  update_last_used : (at : ℕ) (id : String) → Command
  delete_unused : (at cutoff : ℕ) → Command
  insert_request : IncomingRequest → Command

-- The statement that is sent by `Query`.
pub data Query : Type 0 where
  select_by_short_key : String → Query

-- The columns of that `SELECT`.
pub record Columns : Type 0 where
  pub id : String
  pub original_url : String
  pub short_key : String
  pub is_active : Bool
  pub last_used_at : ℕ

pub record Tables : Type 0 where
  pub urls : List Url
  pub incoming_requests : List IncomingRequest

abbrev pub empty_tables : Tables
empty_tables = record { urls = []; incoming_requests = [] }

abbrev pub string_too_long : GoError
string_too_long = pg_error (record { class = "22"; condition = "001" })

abbrev pub unique_violation : GoError
unique_violation = pg_error (record { class = "23"; condition = "505" })

abbrev pub foreign_key_violation : GoError
foreign_key_violation = pg_error (record { class = "23"; condition = "503" })

abbrev is_null {ℓ} : {A : Type ℓ} → Option A → Bool
is_null none = true
is_null (some a) = false

-- `deleted_at IS NULL`
abbrev pub is_live : Url → Bool
is_live u = is_null u.deleted_at

unfoldable pub has_id : String → List Url → Bool
has_id id [] = false
has_id id (u ∷ us) = u.id == id || has_id id us

-- Whether the partial index holds a key.
unfoldable pub has_live_key : String → List Url → Bool
has_live_key key [] = false
has_live_key key (u ∷ us) = is_live u && u.short_key == key || has_live_key key us

unfoldable pub has_request_id : String → List IncomingRequest → Bool
has_request_id id [] = false
has_request_id id (r ∷ rs) = r.id == id || has_request_id id rs

-- The columns that the `INSERT` does not name are NULL.
abbrev pub as_inserted : Url → Url
as_inserted u = record u { base = record u.base { deleted_at = none } }

unfoldable pub insert_into_urls : Url → Tables → Result ℕ × Tables
insert_into_urls u t =
    if ltb 11 (chars u.short_key)
    then (err string_too_long, t)
    else if has_id u.id t.urls || has_live_key u.short_key t.urls
    then (err unique_violation, t)
    else (ok 1, record t { urls = as_inserted u ∷ t.urls })

abbrev as_logged : IncomingRequest → IncomingRequest
as_logged r = record r { base = record r.base { deleted_at = none } }

unfoldable pub insert_into_requests : IncomingRequest → Tables → Result ℕ × Tables
unfolding has_request_id
insert_into_requests r t =
    if ltb 45 (chars r.ip_address)
    then (err string_too_long, t)
    else if has_request_id r.id t.incoming_requests
    then (err unique_violation, t)
    else if has_id r.url_id t.urls
    then (ok 1, record t { incoming_requests = as_logged r ∷ t.incoming_requests })
    else (err foreign_key_violation, t)

-- `UPDATE urls SET last_used_at = $1 WHERE id = $2`
unfoldable pub touch : ℕ → String → Url → Url
touch at id u = if u.id == id then record u { last_used_at = at } else u

-- `WHERE last_used_at < $2 AND deleted_at IS NULL`
unfoldable pub is_unused : ℕ → Url → Bool
is_unused cutoff u = ltb u.last_used_at cutoff && is_live u

-- `SET deleted_at = $1, is_active = false`
unfoldable pub retire : ℕ → ℕ → Url → Url
unfolding is_unused
retire at cutoff u =
    if is_unused cutoff u
    then record u { base = record u.base { deleted_at = some at }; is_active = false }
    else u

-- A statement that is executed: the rows that it affected, or the constraint that it violates.
unfoldable pub execute : Command → Tables → Result ℕ × Tables
unfolding insert_into_urls insert_into_requests
execute (insert_url u) t = insert_into_urls u t
execute (update_last_used at id) t =
    (ok (length (keep (λ u. u.id == id) t.urls)), record t { urls = map (touch at id) t.urls })
execute (delete_unused at cutoff) t = (
  ok (length (keep (is_unused cutoff) t.urls)),
  record t { urls = map (retire at cutoff) t.urls },
)
execute (insert_request r) t = insert_into_requests r t

abbrev pub columns : Url → Columns
columns u = record {
  id = u.id;
  original_url = u.url;
  short_key = u.short_key;
  is_active = u.is_active;
  last_used_at = u.last_used_at;
}

-- `WHERE short_key = $1 AND deleted_at IS NULL`
abbrev pub answers : String → Url → Bool
answers key u = u.short_key == key && is_live u

unfoldable pub select : Query → Tables → List Columns
select (select_by_short_key key) t = map columns (keep (answers key) t.urls)
