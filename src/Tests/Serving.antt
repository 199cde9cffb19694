-- ===== src/Tests/Serving.antt =====
-- A `POST /shorten` and a `GET` of the short key, through the program on the database in memory.
use production_ready_url_sho.Common.{
  ℕ, ◌≡◌, ◌⊎◌, refl, String, Option, none, some, true, [], ◌∷◌, ◌==◌, if◌then◌else◌,
}
use production_ready_url_sho.Failure.{is, GoError, Result, ok}
use production_ready_url_sho.Context.{Ctx, background}
use production_ready_url_sho.Model.{Url, new_url}
use production_ready_url_sho.Keygen.{short_key_from_url}
use production_ready_url_sho.Sql.{empty_tables, execute, select, has_id, has_live_key}
use production_ready_url_sho.Breaker.{new_breaker}
use production_ready_url_sho.Database.{scan, query_row, reader}
use production_ready_url_sho.Repository.{new_url_repository}
use production_ready_url_sho.Service.{shorten_url}
use production_ready_url_sho.Http.{Request, Handler, ok_reply, url_payload, location, header_value}
use production_ready_url_sho.Http.Escaping.{hex_escape_non_ascii}
use production_ready_url_sho.Http.Handlers.{create, liveness}
use production_ready_url_sho.Wiring.{Running, new_url_service}
use production_ready_url_sho.Wiring.EndToEnd.{engine, shorten_then_follow}
use production_ready_url_sho.RateLimit.{Decision}
use production_ready_url_sho.Http.Limiting.{
  App, http_metrics, context_provider, rate_limit, act, skips, record_decision,
}
use production_ready_url_sho.Http.Engine.{setup_router, handler_of, dispatch, on_inner}
use production_ready_url_sho.Tests.Fixtures.{
  length_hash, stamp, log_stamp, Server, server, server_router, server_laws, server-IsFair,
}

abbrev message : GoError → String
message e = "invalid"

abbrev post : Request
post = record {
  method = "POST";
  path = "/shorten";
  ctx = background;
  remote = "1.2.3.4";
  user_agent = "curl";
  input = ok "https://go.dev/café";
  key = "";
}

abbrev key : String
key = short_key_from_url length_hash "https://go.dev/café"

abbrev get : Request
get = record post { method = "GET"; path = "/e0000000000"; key = key }

abbrev started : Running Server
started = record { database = server empty_tables; pending = [] }

abbrev created : Url
created = new_url stamp "https://go.dev/café" key

abbrev State : Type 0
State = ℕ × Running Server

-- The routes that gin finds.
abbrev full_path : Request → String
full_path req = if req.method == "POST" then "/shorten" else "/:key"

abbrev pages : Handler State
pages = liveness

-- A limiter that allows every request.
abbrev letting : Option (Ctx → String → ℕ → Result Decision × ℕ)
letting = some (λ ctx ip n. (ok (record { allowed = true; remaining = n; retry_after = 0 }), n))

abbrev start : App State
start = record { metrics = none; inner = (3, started) }

abbrev serve : Handler (App State)
serve =
    engine server_router server_laws length_hash full_path message pages pages pages stamp log_stamp
      letting

posted :
    ((serve post start).0.status ≡ 201)
    × ((serve post start).0.body ≡ (ok_reply 201 (url_payload created)).body)
unfolding setup_router handler_of http_metrics context_provider rate_limit act skips dispatch
    on_inner record_decision create new_url_service shorten_url new_url_repository scan query_row
    reader select is new_breaker execute new_url short_key_from_url has_id has_live_key
posted = (refl, refl)

-- What a browser gets as the location.
escaped : hex_escape_non_ascii "https://go.dev/café" ≡ "https://go.dev/caf%c3%a9"
unfolding hex_escape_non_ascii
escaped = refl

shorten_then_follow_example :
    let (r, a) = serve get (serve post start).1 in
    (r.status ≡ 429)
    ⊎ ((r.status ≡ 301)
        × (header_value "Location" r.headers ≡ some (hex_escape_non_ascii "https://go.dev/café"))
        × (r.body ≡ location "https://go.dev/café")
        × (a.inner.1.pending ≡ "u1" ∷ []))
unfolding new_url
shorten_then_follow_example =
    shorten_then_follow server_router server_laws length_hash full_path message pages pages pages
      stamp log_stamp stamp log_stamp letting letting post get "https://go.dev/café" created start
      (server-IsFair empty_tables) refl refl refl posted.0 posted.1 refl refl refl
