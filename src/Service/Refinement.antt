-- ===== src/Service/Refinement.antt =====
-- `ShortenURL` and `Redirect` over repositories that refine others refine themselves.
use production_ready_url_sho.Common.{
  ℕ, zero, suc, ◌≡◌, refl, String, List, Bool-cases, inl, inr, ◌==◌,
}
use production_ready_url_sho.Failure.{Result, ok, err, is, not_found}
use production_ready_url_sho.Context.{Ctx}
use production_ready_url_sho.Model.{Stamp, Url, new_url}
use production_ready_url_sho.Keygen.{short_key_from_url, max_collision_retries}
use production_ready_url_sho.Keygen.Decimal.{salted}
use production_ready_url_sho.Repository.{UrlRepository, RequestRepository}
use production_ready_url_sho.Repository.Calm.{Simulates, UrlRefines, RequestRefines}
use production_ready_url_sho.Service.{
  Probe, existing, free, failed, settle, probe, log_request, store, conclude, shorten_url, redirect,
}

-- A result and a state beside those of the specification.
pub record Agree {S T A : Type 0} (view : S → T) (Inv : S → Type 0) (x : A × S) (y : A × T)
    : Type 0 where
  pub result : x.0 ≡ y.0
  pub after : view x.1 ≡ y.1
  pub keeps : Inv x.1

module _ {S T : Type 0} (view : S → T) (Inv : S → Type 0) where
  Simulates-at :
      {A : Type 0} {m : S → A × S} {n : T → A × T}
      → Simulates view Inv m n
      → (s : S) → Inv s
      → Agree view Inv (m s) (n (view s))
  Simulates-at h s inv = record {
    result = h.result s inv;
    after = h.after s inv;
    keeps = h.keeps s inv;
  }

  -- It is enough to compare from equal results and corresponding states.
  Agree-from :
      {A B : Type 0} (f : A × S → B × S) (g : A × T → B × T)
      → ((a : A) (s : S) → Inv s → Agree view Inv (f (a, s)) (g (a, view s)))
      → (x : A × S) (y : A × T) → Agree view Inv x y
      → Agree view Inv (f x) (g y)
  Agree-from f g k (a, s) (b, t) h = rw (← h.result) (rw (← h.after) (k a s h.keeps))

  settle-Agree :
      (original key : String) (retry : S → Probe × S) (again : T → Probe × T)
      → ((s : S) → Inv s → Agree view Inv (retry s) (again (view s)))
      → (r : Result Url) (s : S) → Inv s
      → Agree view Inv (settle original key retry (r, s)) (settle original key again (r, view s))
  unfolding settle
  settle-Agree original key retry again k (ok u) s inv = elim (Bool-cases (u.url == original)) [
    | inl same ↦ rw same (record { result = refl; after = refl; keeps = inv })
    | inr other ↦ rw other (k s inv)
  ]
  settle-Agree original key retry again k (err e) s inv = elim (Bool-cases (is e not_found)) [
    | inl missing ↦ rw missing (record { result = refl; after = refl; keeps = inv })
    | inr broken ↦ rw broken (record { result = refl; after = refl; keeps = inv })
  ]

  module _ (sum256 : String → List ℕ) {urls : UrlRepository S} {spec : UrlRepository T}
      (refines : UrlRefines view Inv urls spec) where
    probe-Agree :
        (ctx : Ctx) (original : String) (rounds attempt : ℕ) (key : String) (s : S)
        → Inv s
        → Agree view Inv
            (probe sum256 urls ctx original rounds attempt key s)
            (probe sum256 spec ctx original rounds attempt key (view s))
    unfolding probe
    probe-Agree ctx original zero attempt key s inv = record {
      result = refl;
      after = refl;
      keeps = inv;
    }
    probe-Agree ctx original (suc rounds) attempt key s inv =
        let next = short_key_from_url sum256 (salted original (suc attempt)) in
        let retry-Agree = probe-Agree ctx original rounds (suc attempt) next in
        Agree-from (settle original key (probe sum256 urls ctx original rounds (suc attempt) next))
          (settle original key (probe sum256 spec ctx original rounds (suc attempt) next))
          (settle-Agree original key _ _ retry-Agree) _ _ (Simulates-at (refines.get ctx key) s inv)

    module _ {requests : RequestRepository S} {log_spec : RequestRepository T}
        (log_refines : RequestRefines view Inv requests log_spec) where
      -- The state after a log entry, beside any result.
      logged-Agree :
          {A : Type 0} (a : A) (ctx : Ctx) (st : Stamp) (id agent : String) (s : S)
          → Inv s
          → Agree view Inv
              (a, log_request sum256 urls requests ctx st id agent s)
              (a, log_request sum256 spec log_spec ctx st id agent (view s))
      unfolding log_request
      logged-Agree a ctx st id agent s inv =
          let h = log_refines.log ctx st id agent in
          record { result = refl; after = h.after s inv; keeps = h.keeps s inv }

      store-Agree :
          (ctx : Ctx) (log_st : Stamp) (agent : String) (u : Url) (r : Result (Unit {0})) (s : S)
          → Inv s
          → Agree view Inv
              (store sum256 urls requests ctx log_st agent u (r, s))
              (store sum256 spec log_spec ctx log_st agent u (r, view s))
      unfolding store
      store-Agree ctx log_st agent u (ok _) s inv = logged-Agree (ok u) ctx log_st u.id agent s inv
      store-Agree ctx log_st agent u (err e) s inv = record {
        result = refl;
        after = refl;
        keeps = inv;
      }

      conclude-Agree :
          (ctx : Ctx) (st log_st : Stamp) (original agent : String) (p : Probe) (s : S)
          → Inv s
          → Agree view Inv
              (conclude sum256 urls requests ctx st log_st original agent (p, s))
              (conclude sum256 spec log_spec ctx st log_st original agent (p, view s))
      unfolding conclude
      conclude-Agree ctx st log_st original agent (existing u) s inv =
          logged-Agree (ok u) ctx log_st u.id agent s inv
      conclude-Agree ctx st log_st original agent (free key) s inv =
          let u = new_url st original key in
          Agree-from (store sum256 urls requests ctx log_st agent u)
            (store sum256 spec log_spec ctx log_st agent u) (store-Agree ctx log_st agent u) _ _
            (Simulates-at (refines.create ctx u) s inv)
      conclude-Agree ctx st log_st original agent (failed e) s inv = record {
        result = refl;
        after = refl;
        keeps = inv;
      }

      -- If the repositories refine others, `ShortenURL` over them returns what it returns over those,
      -- and leaves corresponding states.
      pub shorten_url-Agree :
          (ctx : Ctx) (st log_st : Stamp) (original agent : String) (s : S)
          → Inv s
          → Agree view Inv
              (shorten_url sum256 urls requests ctx st log_st original agent s)
              (shorten_url sum256 spec log_spec ctx st log_st original agent (view s))
      unfolding shorten_url
      shorten_url-Agree ctx st log_st original agent s inv =
          Agree-from (conclude sum256 urls requests ctx st log_st original agent)
            (conclude sum256 spec log_spec ctx st log_st original agent)
            (conclude-Agree ctx st log_st original agent) _ _
            (probe-Agree ctx original (suc max_collision_retries) 0
              (short_key_from_url sum256 original) s inv)

  pub redirect-Agree :
      {urls : UrlRepository S} {spec : UrlRepository T}
      → UrlRefines view Inv urls spec
      → (ctx : Ctx) (key : String) (s : S) → Inv s
      → Agree view Inv (redirect urls ctx key s) (redirect spec ctx key (view s))
  unfolding redirect
  redirect-Agree refines ctx key s inv =
      let h = refines.get ctx key in
      record { result = rw (h.result s inv); after = h.after s inv; keeps = h.keeps s inv }
