-- ===== src/Tests/Reordered.antt =====
-- Two databases in memory that hold the same rows in two orders.
use mathlib.Core.List.{Permᴰ}
use production_ready_url_sho.Common.{◌≡◌, refl, String, [], ◌∷◌, eq_iff, arith}
use production_ready_url_sho.Context.{background}
use production_ready_url_sho.Model.{Url, new_url}
use production_ready_url_sho.Sql.{Tables}
use production_ready_url_sho.Sql.Constraints.{Compatible}
use production_ready_url_sho.Sql.Unordered.{SameRows}
use production_ready_url_sho.Repository.{new_url_repository, new_request_repository}
use production_ready_url_sho.Repository.Calm.{UrlRefines}
use production_ready_url_sho.Repository.Unordered.{
  contents_urls, stored_in, new_url_repository-unordered,
}
use production_ready_url_sho.Service.{shorten_url, redirect}
use production_ready_url_sho.Service.Unordered.{rows_in_any_order}
use production_ready_url_sho.Tests.Fixtures.{
  length_hash, stamp, log_stamp, server, server-IsFair, server_router, server_laws,
}

new_url_repository-unordered_example :
    UrlRefines
      (stored_in server_router server_laws)
      server_laws.IsCalm
      (new_url_repository server_router)
      contents_urls
new_url_repository-unordered_example = new_url_repository-unordered server_router server_laws

abbrev row : String → Url
row id = new_url (record { now = 5; uuid = id }) id id

abbrev forth : Tables
forth = record { urls = row "a" ∷ row "b" ∷ []; incoming_requests = [] }

abbrev back : Tables
back = record { urls = row "b" ∷ row "a" ∷ []; incoming_requests = [] }

rows_apart : Compatible (row "a") (row "b")
unfolding new_url
rows_apart = record {
  ids = λ e. ground (arith, (eq_iff "b" "a").1 e);
  keys = λ _ _ e. ground (arith, (eq_iff "b" "a").1 e);
}

reordered : SameRows forth back
reordered = record {
  urls = Permᴰ.swap refl refl;
  requests = Permᴰ.nil;
  consistent = ((rows_apart, tt), (tt, tt));
}

rows_in_any_order_example :
    let urls = new_url_repository server_router in
    let requests = new_request_repository server_router in
    let x =
      shorten_url length_hash urls requests background stamp log_stamp "https://go.dev" "curl"
        (server forth) in
    let y =
      shorten_url length_hash urls requests background stamp log_stamp "https://go.dev" "curl"
        (server back) in
    (x.0 ≡ y.0)
    × (stored_in server_router server_laws x.1 ≡ stored_in server_router server_laws y.1)
    × ((redirect urls background "a" x.1).0 ≡ (redirect urls background "a" y.1).0)
rows_in_any_order_example =
    rows_in_any_order server_router server_laws length_hash background background stamp log_stamp
      "https://go.dev" "curl" "a" (server forth) (server back) (server-IsFair forth)
      (server-IsFair back) reordered
