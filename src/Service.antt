-- ===== src/Service.antt =====
-- internal/service/url_service_impl.go: `ShortenURL` and `Redirect` over the two repositories.
-- What `time.Now` and `uuid.New` return are arguments: the stamps of the new URL and of the logged
-- request. Log lines of slog are not modelled.
pub mod Results
pub mod Counting
pub mod Effort
pub mod Refinement
pub mod OnTables
pub mod Lifecycle
pub mod Lagging
pub mod OnReplica
pub mod Unordered
use production_ready_url_sho.Common.{
  ℕ, zero, suc, ◌*◌, String, Option, none, some, List, ◌==◌, if◌then◌else◌,
}
use production_ready_url_sho.Failure.{GoError, wrapped, not_found, is, Result, ok, err}
use production_ready_url_sho.Context.{Ctx, background, second, with_timeout}
use production_ready_url_sho.Model.{Stamp, Url, new_url}
use production_ready_url_sho.Keygen.{short_key_from_url, max_collision_retries}
use production_ready_url_sho.Keygen.Decimal.{salted}
use production_ready_url_sho.Repository.{UrlRepository, RequestRepository}

-- How the loop of `ShortenURL` ends: with the URL stored before, with a key to create, or with an
-- error.
pub data Probe : Type 0 where
  existing : Url → Probe
  free : String → Probe
  failed : GoError → Probe

-- The outcome of one lookup. A collision runs the next round.
unfoldable pub settle :
    {S : Type 0} → String → String → (S → Probe × S) → Result Url × S → Probe × S
settle original key retry (ok u, s) = if u.url == original then (existing u, s) else retry s
settle original key retry (err e, s) =
    if is e not_found then (free key, s) else (failed (wrapped "lookup short key" e), s)

module _ {S : Type 0} (sum256 : String → List ℕ) (urls : UrlRepository S) where
  -- `rounds` are the rounds left, `attempt` the loop's counter.
  unfoldable pub probe : Ctx → String → (rounds attempt : ℕ) → String → S → Probe × S
  unfolding settle
  probe ctx original zero attempt key s = (free key, s)
  probe ctx original (suc rounds) attempt key s =
      settle original key
        (probe ctx original rounds (suc attempt)
          (short_key_from_url sum256 (salted original (suc attempt))))
        (urls.get_by_short_key ctx key s)

module _ {S : Type 0} (sum256 : String → List ℕ) (urls : UrlRepository S)
    (requests : RequestRepository S) where
  -- An error of the request log is logged and dropped.
  unfoldable pub log_request : Ctx → Stamp → String → String → S → S
  log_request ctx st id agent s = (requests.log_create_request ctx st id agent s).1

  unfoldable pub store : Ctx → Stamp → String → Url → Result (Unit {0}) × S → Result Url × S
  store ctx log_stamp agent u (err e, s) = (err (wrapped "create url" e), s)
  store ctx log_stamp agent u (ok _, s) = (ok u, log_request ctx log_stamp u.id agent s)

  unfoldable pub conclude : Ctx → Stamp → Stamp → String → String → Probe × S → Result Url × S
  unfolding log_request store
  conclude ctx url_stamp log_stamp original agent (existing u, s) =
      (ok u, log_request ctx log_stamp u.id agent s)
  conclude ctx url_stamp log_stamp original agent (free key, s) =
      let u = new_url url_stamp original key in store ctx log_stamp agent u (urls.create ctx u s)
  conclude ctx url_stamp log_stamp original agent (failed e, s) = (err e, s)

  unfoldable pub shorten_url : Ctx → Stamp → Stamp → String → String → S → Result Url × S
  unfolding probe conclude
  shorten_url ctx url_stamp log_stamp original agent s =
      conclude ctx url_stamp log_stamp original agent (
        probe sum256 urls ctx original (suc max_collision_retries) 0
          (short_key_from_url sum256 original) s)

-- What `Redirect` returns, and the identifier that it hands to the goroutine which it starts.
pub record Redirection : Type 0 where
  pub target : Result String
  pub spawned : Option String

abbrev redirection : Result Url → Redirection
redirection (ok u) = record { target = ok u.url; spawned = some u.id }
redirection (err e) = record { target = err e; spawned = none }

module _ {S : Type 0} (urls : UrlRepository S) where
  unfoldable pub redirect : Ctx → String → S → Redirection × S
  redirect ctx key s = let (r, s') = urls.get_by_short_key ctx key s in (redirection r, s')

  -- The goroutine, whenever it runs; its error is logged and dropped.
  unfoldable pub touch_last_used : ℕ → String → S → S
  touch_last_used now id s =
      (urls.update_last_used (with_timeout background (2 * second)) now id s).1
