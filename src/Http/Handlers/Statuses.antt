-- ===== src/Http/Handlers/Statuses.antt =====
-- Which status a client gets, by the innermost error.
use production_ready_url_sho.Common.{ℕ, ◌≡◌, refl, ap, String, some, arith}
use production_ready_url_sho.Failure.{
  GoError, sentinel, pg_error, other, wrapped, circuit_open, not_found, conflict, no_rows, canceled,
  deadline_exceeded, open_state, too_many_requests, is, Result, ok, err,
}
use production_ready_url_sho.Failure.Wrapping.{root}
use production_ready_url_sho.Context.{with_timeout}
use production_ready_url_sho.Model.{Url}
use production_ready_url_sho.Http.{nothing, Reply, error_reply, ok_reply, url_payload, Request}
use production_ready_url_sho.Http.Handlers.{
  UrlService, created_reply, redirect_reply, readiness_reply, create, create_bound, create_timeout,
}

-- Does a client that is still there get an error envelope with this code?
abbrev pub IsError : ℕ → String → Reply → Type 0
IsError status code r = (message : String) × (r ≡ error_reply status code message)

-- The reply for an innermost error, where `code` and `status` are those of the operation's own failure.
abbrev pub Answers : ℕ → String → GoError → Reply → Type 0
Answers status code (sentinel deadline_exceeded) r = IsError 504 "timeout" r
Answers status code (sentinel canceled) r = r.body ≡ nothing
Answers status code _ r = IsError status code r

-- A failed `Create` is answered by the innermost error alone: 504 for a timeout, no body for a
-- cancelled request, 500 for everything else, an open circuit and a conflict included.
pub created_reply-Answers :
    (e : GoError) → Answers 500 "internal_error" (root e) (created_reply (err e))
unfolding created_reply root is
created_reply-Answers (wrapped m e) = created_reply-Answers e
created_reply-Answers (sentinel circuit_open) = (_, refl)
created_reply-Answers (sentinel not_found) = (_, refl)
created_reply-Answers (sentinel conflict) = (_, refl)
created_reply-Answers (sentinel no_rows) = (_, refl)
created_reply-Answers (sentinel canceled) = refl
created_reply-Answers (sentinel deadline_exceeded) = (_, refl)
created_reply-Answers (sentinel open_state) = (_, refl)
created_reply-Answers (sentinel too_many_requests) = (_, refl)
created_reply-Answers (pg_error s) = (_, refl)
created_reply-Answers (other m) = (_, refl)

-- A failed readiness probe is answered by the innermost error of the ping alone: 504 for a timeout,
-- no body for a cancelled request, 503 for everything else.
pub readiness_reply-Answers :
    (e : GoError) → Answers 503 "unavailable" (root e) (readiness_reply (some e))
unfolding readiness_reply root is
readiness_reply-Answers (wrapped m e) = readiness_reply-Answers e
readiness_reply-Answers (sentinel circuit_open) = (_, refl)
readiness_reply-Answers (sentinel not_found) = (_, refl)
readiness_reply-Answers (sentinel conflict) = (_, refl)
readiness_reply-Answers (sentinel no_rows) = (_, refl)
readiness_reply-Answers (sentinel canceled) = refl
readiness_reply-Answers (sentinel deadline_exceeded) = (_, refl)
readiness_reply-Answers (sentinel open_state) = (_, refl)
readiness_reply-Answers (sentinel too_many_requests) = (_, refl)
readiness_reply-Answers (pg_error s) = (_, refl)
readiness_reply-Answers (other m) = (_, refl)

-- The reply of a redirect for an innermost error.
abbrev pub RedirectAnswers : GoError → Reply → Type 0
RedirectAnswers (sentinel not_found) r = IsError 404 "not_found" r
RedirectAnswers e r = Answers 500 "internal_error" e r

-- A failed redirect is answered by the innermost error alone: 404 for a missing record, 504 for a
-- timeout, no body for a cancelled request, 500 for everything else.
pub redirect_reply-Answers : (e : GoError) → RedirectAnswers (root e) (redirect_reply (err e))
unfolding redirect_reply root is
redirect_reply-Answers (wrapped m e) = redirect_reply-Answers e
redirect_reply-Answers (sentinel circuit_open) = (_, refl)
redirect_reply-Answers (sentinel not_found) = (_, refl)
redirect_reply-Answers (sentinel conflict) = (_, refl)
redirect_reply-Answers (sentinel no_rows) = (_, refl)
redirect_reply-Answers (sentinel canceled) = refl
redirect_reply-Answers (sentinel deadline_exceeded) = (_, refl)
redirect_reply-Answers (sentinel open_state) = (_, refl)
redirect_reply-Answers (sentinel too_many_requests) = (_, refl)
redirect_reply-Answers (pg_error s) = (_, refl)
redirect_reply-Answers (other m) = (_, refl)

-- Every failure is answered by its innermost error alone, however it is wrapped: 504 for a timeout,
-- and no body for a cancelled request; apart from these, a failed `Create` gets 500, a failed redirect
-- 404 for a missing record and else 500, and a failed readiness probe 503.
pub failed_replies-Answer :
    (e : GoError)
    → Answers 500 "internal_error" (root e) (created_reply (err e))
      × RedirectAnswers (root e) (redirect_reply (err e))
      × Answers 503 "unavailable" (root e) (readiness_reply (some e))
failed_replies-Answer e =
    (created_reply-Answers e, redirect_reply-Answers e, readiness_reply-Answers e)

pub created-ok :
    (r : Result Url) (u : Url) → created_reply r ≡ ok_reply 201 (url_payload u) → r ≡ ok u
unfolding created_reply
created-ok (ok v) u h = cc h
created-ok (err e) u h = ground arith

-- A valid body is handed to the service under the handler's own deadline.
pub create-valid :
    {S : Type 0} (service : UrlService S) (message : GoError → String) (req : Request)
    (original : String) (s : S)
    → req.input ≡ ok original
    → let x = service.shorten_url (with_timeout req.ctx create_timeout) original req.user_agent s in
      create service message req s ≡ (created_reply x.0, x.1)
unfolding create
create-valid service message req original s valid =
    ap (λ i. create_bound service message (with_timeout req.ctx create_timeout) req i s) valid
