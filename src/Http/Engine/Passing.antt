-- ===== src/Http/Engine/Passing.antt =====
-- What the engine makes of the answer of a handler.
use production_ready_url_sho.Common.{String, ◌≡◌, inl, inr, refl, Option, none, some, Bool-cases}
use production_ready_url_sho.Failure.{Result, ok, err}
use production_ready_url_sho.Context.{Ctx, get_client_ip}
use production_ready_url_sho.RateLimit.{Decision}
use production_ready_url_sho.Http.{header_value, Reply, Request, Handler}
use production_ready_url_sho.Http.Limiting.{
  App, skips, act, rate_limit, context_provider, http_metrics, record_decision,
}
use production_ready_url_sho.Http.Engine.{
  RouterDeps, routes, rate_limit_skip_prefixes, handler_of, on_inner, limited, dispatch,
  setup_router,
}
use production_ready_url_sho.Http.Engine.Bypass.{provided}

-- A handler on the second of two states; a limiter on the first.
abbrev pub on_second : {R S : Type 0} → Handler S → Handler (R × S)
on_second h req (x, s) = let (reply, s') = h req s in (reply, (x, s'))

abbrev pub on_first :
    {R S A : Type 0} → (Ctx → String → R → A × R) → Ctx → String → R × S → A × (R × S)
on_first limiter ctx key (x, s) = let (a, x') = limiter ctx key x in (a, (x', s))

-- A reply of the engine beside that of the handler `h`: a 429 before which `h` did not run, or what `h`
-- answered, with perhaps more headers, but that of a redirect the same.
pub data Passing {R S : Type 0} (h : Handler S) (req : Request) (s : S) (x : Reply × App (R × S))
    : Type 0 where
  denied : x.0.status ≡ 429 → x.1.inner.1 ≡ s → Passing h req s x
  answered :
      x.0.status ≡ (h req s).0.status
      → header_value "Location" x.0.headers ≡ header_value "Location" (h req s).0.headers
      → x.0.body ≡ (h req s).0.body
      → x.1.inner.1 ≡ (h req s).1
      → Passing h req s x

module _ {R S : Type 0} (limiter : Ctx → String → R → Result Decision × R) (h : Handler S)
    (next : Handler (App (R × S))) (req : Request)
    (runs : (a : App (R × S)) → Passing h req a.inner.1 (next req a)) where
  act-Passing :
      (r : Result Decision) (a : App (R × S))
      → Passing h req a.inner.1 (act (on_first limiter) next req (r, a))
  unfolding act record_decision
  act-Passing (err e) a = runs (record_decision "error" a)
  act-Passing (ok d) a = elim (Bool-cases d.allowed) [
    | inl allowed ↦ elim (runs (record_decision "allow" a)) [
      | denied status kept ↦ rw allowed (denied status kept)
      | answered status header body state ↦ rw allowed (answered status header body state)
    ]
    | inr refused ↦ rw refused (denied refl refl)
  ]

  rate_limit-Passing :
      (a : App (R × S))
      → Passing h req a.inner.1 (rate_limit (on_first limiter) rate_limit_skip_prefixes next req a)
  unfolding rate_limit
  rate_limit-Passing a = elim (Bool-cases (skips rate_limit_skip_prefixes req.path)) [
    | inl skipped ↦ rw skipped (runs a)
    | inr asked ↦
        let (r, x) = limiter req.ctx (get_client_ip req.ctx) a.inner.0 in
        rw asked (act-Passing r (record a { inner = (x, a.inner.1) }))
  ]

-- A limiter of the engine, if there is one.
abbrev pub wired :
    {R S : Type 0}
    → Option (Ctx → String → R → Result Decision × R)
    → Option (Ctx → String → R × S → Result Decision × (R × S))
wired none = none
wired (some limiter) = some (on_first limiter)

module _ {R S : Type 0} (full_path : Request → String) (d : RouterDeps (R × S)) (h : Handler S)
    (req : Request) where
  dispatch-Passing :
      (a : App (R × S))
      → handler_of (routes d) req.method (full_path req) ≡ on_second h
      → Passing h req a.inner.1 (dispatch full_path d req a)
  unfolding dispatch on_inner
  dispatch-Passing a routed = rw routed (answered refl refl refl refl)

  limited-Passing :
      (limiter : Option (Ctx → String → R → Result Decision × R)) (a : App (R × S))
      → handler_of (routes d) req.method (full_path req) ≡ on_second h
      → Passing h req a.inner.1 (limited (wired limiter) (dispatch full_path d) req a)
  limited-Passing none a routed = dispatch-Passing a routed
  limited-Passing (some limiter) a routed =
      rate_limit-Passing limiter h (dispatch full_path d) req (λ a'. dispatch-Passing a' routed) a

-- Whatever the limiter says, and whether there is one: a request that is routed to a handler is denied
-- with 429, and then the handler did not run, or it is answered as the handler answers it.
pub setup_router-Passing :
    {R S : Type 0} (full_path : Request → String) (d : RouterDeps (R × S)) (h : Handler S)
    (limiter : Option (Ctx → String → R → Result Decision × R)) (req : Request) (a : App (R × S))
    → d.rate_limiter ≡ wired limiter
    → handler_of (routes d) req.method (full_path (provided req)) ≡ on_second h
    → Passing h (provided req) a.inner.1 (setup_router full_path d req a)
unfolding setup_router http_metrics context_provider
setup_router-Passing full_path d h limiter req a limits routed =
    rw limits (elim (limited-Passing full_path d h (provided req) limiter a routed) [
      | denied status kept ↦ denied status kept
      | answered status header body state ↦ answered status header body state
    ])
