-- ===== src/Http/Handlers.antt =====
-- internal/api/handlers: url_handler.go, health_handlers.go and context.go. The clock and the UUIDs
-- of one request are the arguments that the service takes; `db_ping` is the pool's `Ping`.
pub mod Statuses
use production_ready_url_sho.Common.{ℕ, ◌*◌, String, Option, none, some, [], ◌∷◌, if◌then◌else◌}
use production_ready_url_sho.Failure.{
  GoError, deadline_exceeded, canceled, not_found, is, Result, ok, err,
}
use production_ready_url_sho.Context.{Ctx, second, with_timeout}
use production_ready_url_sho.Model.{Url}
use production_ready_url_sho.Http.{
  url_payload, status_payload, location, Reply, ok_reply, error_reply, no_reply, Request, Handler,
}
use production_ready_url_sho.Http.Escaping.{hex_escape_non_ascii}

abbrev pub create_timeout : ℕ
create_timeout = 10 * second

abbrev pub redirect_timeout : ℕ
redirect_timeout = 3 * second

abbrev pub readiness_timeout : ℕ
readiness_timeout = 2 * second

-- `handleContextErr`: the reply that it wrote, or `none` for `false`.
unfoldable pub handle_context_err : GoError → Option Reply
handle_context_err e =
    if is e deadline_exceeded
    then some (error_reply 504 "timeout" "request timed out")
    else if is e canceled
    then some no_reply
    else none

abbrev pub or_reply : Option Reply → Reply → Reply
or_reply none other = other
or_reply (some r) other = r

-- What a handler needs of the URL service: the two operations, on a state.
pub record UrlService (S : Type 0) : Type 0 where
  pub shorten_url : Ctx → (original user_agent : String) → S → Result Url × S
  pub redirect : Ctx → String → S → Result String × S

unfoldable pub created_reply : Result Url → Reply
unfolding handle_context_err
created_reply (ok u) = ok_reply 201 (url_payload u)
created_reply (err e) =
    or_reply (handle_context_err e) (error_reply 500 "internal_error" "failed to create short url")

-- `c.Redirect`, for a URL with a scheme: `binding:"url"` lets no other into the database.
unfoldable pub redirect_reply : Result String → Reply
unfolding handle_context_err hex_escape_non_ascii
redirect_reply (ok original) = record {
  status = 301;
  headers = ("Location", hex_escape_non_ascii original) ∷ [];
  body = location original;
}
redirect_reply (err e) =
    if is e not_found
    then error_reply 404 "not_found" "short url not found"
    else or_reply (handle_context_err e)
        (error_reply 500 "internal_error" "failed to resolve short url")

module _ {S : Type 0} (service : UrlService S) (message : GoError → String) where
  create_bound : Ctx → Request → Result String → S → Reply × S
  unfolding created_reply
  create_bound ctx req (err e) s = (error_reply 400 "invalid_input" (message e), s)
  create_bound ctx req (ok url) s =
      let (r, s') = service.shorten_url ctx url req.user_agent s in (created_reply r, s')

  -- `message` is the `Error` method of an error.
  unfoldable pub create : Handler S
  unfolding create_bound
  create req s = create_bound (with_timeout req.ctx create_timeout) req req.input s

module _ {S : Type 0} (service : UrlService S) where
  unfoldable pub redirect : Handler S
  unfolding redirect_reply
  redirect req s =
      let (r, s') = service.redirect (with_timeout req.ctx redirect_timeout) req.key s in
      (redirect_reply r, s')

unfoldable pub liveness : {S : Type 0} → Handler S
liveness req s = (ok_reply 200 (status_payload "alive"), s)

unfoldable pub readiness_reply : Option GoError → Reply
unfolding handle_context_err
readiness_reply none = ok_reply 200 (status_payload "ready")
readiness_reply (some e) =
    or_reply (handle_context_err e) (error_reply 503 "unavailable" "database unreachable")

unfoldable pub readiness : {S : Type 0} → (Ctx → S → Option GoError × S) → Handler S
unfolding readiness_reply
readiness db_ping req s =
    let (e, s') = db_ping (with_timeout req.ctx readiness_timeout) s in (readiness_reply e, s')
