-- ===== src/Tests/Bypassing.antt =====
-- A client that is out of quota, on paths that begin like a health probe.
use production_ready_url_sho.Common.{◌≡◌, refl, String, List, false, none, some, [], ◌∷◌, map}
use production_ready_url_sho.Failure.{ok}
use production_ready_url_sho.Context.{background}
use production_ready_url_sho.Http.{Request}
use production_ready_url_sho.Http.Limiting.{App, skips}
use production_ready_url_sho.Http.Engine.{RouterDeps, setup_router}
use production_ready_url_sho.Http.Engine.Bypass.{IsBypass, provided, serve_each, prefixes_bypass}
use production_ready_url_sho.Tests.Traffic.{deps, full_path}

-- A limiter that denies everything.
abbrev guarded : RouterDeps (List String)
guarded = record deps {
  rate_limiter =
      some (λ ctx key s. (ok (record { allowed = false; remaining = 0; retry_after = 1 }), s));
}

abbrev probe : Request
probe = record {
  method = "GET";
  path = "/livenessXYZ";
  ctx = background;
  remote = "1.2.3.4";
  user_agent = "curl";
  input = ok "";
  key = "livenessXYZ";
}

abbrev start : App (List String)
start = record { metrics = none; inner = [] }

probe-IsBypass : IsBypass full_path guarded probe
unfolding skips
probe-IsBypass = record { method = refl; template = refl; prefixed = refl }

prefixes_bypass_example :
    let x = serve_each (setup_router full_path guarded) (probe ∷ probe ∷ []) start in
    let y = serve_each guarded.redirect (map provided (probe ∷ probe ∷ [])) [] in
    (x.0 ≡ y.0) × (x.1.inner ≡ y.1)
prefixes_bypass_example =
    prefixes_bypass full_path guarded (probe ∷ probe ∷ []) start
      (probe-IsBypass, (probe-IsBypass, tt))
