-- ===== src/Service/Effort.antt =====
-- How many calls one `ShortenURL` makes.
use production_ready_url_sho.Common.{
  ℕ, zero, suc, ◌+◌, ◌≤◌, ◌≡◌, ◌∙◌, refl, String, List, arith, Bool-cases, inl, inr, ◌==◌,
}
use production_ready_url_sho.Failure.{Result, ok, err, is, not_found}
use production_ready_url_sho.Context.{Ctx}
use production_ready_url_sho.Model.{Stamp, Url, new_url}
use production_ready_url_sho.Keygen.{short_key_from_url, max_collision_retries}
use production_ready_url_sho.Keygen.Decimal.{salted}
use production_ready_url_sho.Repository.{UrlRepository, RequestRepository}
use production_ready_url_sho.Service.{
  Probe, existing, free, failed, settle, probe, log_request, store, conclude, shorten_url,
}
use production_ready_url_sho.Service.Counting.{
  Calls, no_calls, count_lookup, count_create, counting_urls, counting_requests,
  counting_urls-refines, counting_requests-refines,
}
use production_ready_url_sho.Service.Refinement.{shorten_url-Agree}

module _ {S : Type 0} (sum256 : String → List ℕ) (urls : UrlRepository S)
    (requests : RequestRepository S) where
  -- Some lookups, and nothing else.
  record Looks (most : ℕ) (c c' : Calls) : Type 0 where
    lookups : c'.lookups ≤ c.lookups + most
    creates : c'.creates ≡ c.creates
    logs : c'.logs ≡ c.logs

  weaken : {most : ℕ} {c d : Calls} → Looks 1 c d → Looks (suc most) c d
  weaken h = record { lookups = omega (arith, h.lookups); creates = h.creates; logs = h.logs }

  Looks-trans : {most : ℕ} {c d e : Calls} → Looks 1 c d → Looks most d e → Looks (suc most) c e
  Looks-trans h k = record {
    lookups = omega (arith, h.lookups, k.lookups);
    creates = k.creates ∙ h.creates;
    logs = k.logs ∙ h.logs;
  }

  settle-Looks :
      (original key : String) (retry : Calls × S → Probe × (Calls × S)) (most : ℕ) (c : Calls)
      → ((x : Calls × S) → Looks most x.0 (retry x).1.0)
      → (r : Result Url) (d : Calls) (s : S) → Looks 1 c d
      → Looks (suc most) c (settle original key retry (r, (d, s))).1.0
  unfolding settle
  settle-Looks original key retry most c k (ok u) d s h = elim (Bool-cases (u.url == original)) [
    | inl same ↦ rw same (weaken h)
    | inr other ↦ rw other (Looks-trans h (k (d, s)))
  ]
  settle-Looks original key retry most c k (err e) d s h = elim (Bool-cases (is e not_found)) [
    | inl missing ↦ rw missing (weaken h)
    | inr broken ↦ rw broken (weaken h)
  ]

  probe-Looks :
      (ctx : Ctx) (original : String) (rounds attempt : ℕ) (key : String) (c : Calls) (s : S)
      → Looks rounds c
          (probe sum256 (counting_urls urls) ctx original rounds attempt key (c, s)).1.0
  unfolding probe
  probe-Looks ctx original zero attempt key c s = record {
    lookups = omega arith;
    creates = refl;
    logs = refl;
  }
  probe-Looks ctx original (suc rounds) attempt key c s =
      let (r, s') = urls.get_by_short_key ctx key s in
      settle-Looks original key _ rounds c
        (λ x.
          probe-Looks ctx original rounds (suc attempt)
            (short_key_from_url sum256 (salted original (suc attempt))) x.0 x.1)
        r (count_lookup c) s' (record { lookups = omega arith; creates = refl; logs = refl })

  -- What comes after the lookups: at most one insertion and one entry of the log.
  record Concludes (c c' : Calls) : Type 0 where
    lookups : c'.lookups ≡ c.lookups
    creates : c'.creates ≤ suc c.creates
    logs : c'.logs ≤ suc c.logs

  store-Concludes :
      (ctx : Ctx) (log_st : Stamp) (agent : String) (u : Url) (r : Result (Unit {0})) (c : Calls)
      (s : S)
      → Concludes c
          (store sum256
            (counting_urls urls)
            (counting_requests requests)
            ctx
            log_st
            agent
            u
            (r, (count_create c, s))).1.0
  unfolding store log_request
  store-Concludes ctx log_st agent u (ok _) c s = record {
    lookups = refl;
    creates = omega arith;
    logs = omega arith;
  }
  store-Concludes ctx log_st agent u (err e) c s = record {
    lookups = refl;
    creates = omega arith;
    logs = omega arith;
  }

  conclude-Concludes :
      (ctx : Ctx) (st log_st : Stamp) (original agent : String) (p : Probe) (c : Calls) (s : S)
      → Concludes c
          (conclude sum256
            (counting_urls urls)
            (counting_requests requests)
            ctx
            st
            log_st
            original
            agent
            (p, (c, s))).1.0
  unfolding conclude log_request
  conclude-Concludes ctx st log_st original agent (existing u) c s = record {
    lookups = refl;
    creates = omega arith;
    logs = omega arith;
  }
  conclude-Concludes ctx st log_st original agent (free key) c s =
      let u = new_url st original key in
      let (r, s') = urls.create ctx u s in store-Concludes ctx log_st agent u r c s'
  conclude-Concludes ctx st log_st original agent (failed e) c s = record {
    lookups = refl;
    creates = omega arith;
    logs = omega arith;
  }

  -- One run with counters at zero.
  abbrev pub counted_shorten : Ctx → Stamp → Stamp → String → String → S → Result Url × (Calls × S)
  counted_shorten ctx st log_st original agent s =
      shorten_url sum256 (counting_urls urls) (counting_requests requests) ctx st log_st original
        agent (no_calls, s)

  record Bounded (c : Calls) : Type 0 where
    lookups : c.lookups ≤ 6
    creates : c.creates ≤ 1
    logs : c.logs ≤ 1

  shorten-Bounded :
      (ctx : Ctx) (st log_st : Stamp) (original agent : String) (s : S)
      → Bounded (counted_shorten ctx st log_st original agent s).1.0
  unfolding shorten_url
  shorten-Bounded ctx st log_st original agent s =
      let rounds = suc max_collision_retries in
      let key = short_key_from_url sum256 original in
      let x = probe sum256 (counting_urls urls) ctx original rounds 0 key (no_calls, s) in
      let looks = probe-Looks ctx original rounds 0 key no_calls s in
      let rest = conclude-Concludes ctx st log_st original agent x.0 x.1.0 x.1.1 in
      record {
        lookups = omega (arith, looks.lookups, rest.lookups);
        creates = omega (arith, looks.creates, rest.creates);
        logs = omega (arith, looks.logs, rest.logs);
      }

  -- `ShortenURL` ends after a bounded number of calls, whatever the repositories answer: at most six
  -- lookups, one insertion and one entry of the request log. Counting them changes neither its result
  -- nor the state that it leaves.
  pub calls_bounded :
      (ctx : Ctx) (st log_st : Stamp) (original agent : String) (s : S)
      → let (r, (c, s')) = counted_shorten ctx st log_st original agent s in
        (c.lookups ≤ 6)
        × (c.creates ≤ 1)
        × (c.logs ≤ 1)
        × ((r, s') ≡ shorten_url sum256 urls requests ctx st log_st original agent s)
  calls_bounded ctx st log_st original agent s =
      let same =
        shorten_url-Agree (λ (x : Calls × S). x.1) (λ x. Unit {0}) sum256
          (counting_urls-refines urls) (counting_requests-refines requests) ctx st log_st original
          agent (no_calls, s) tt in
      let b = shorten-Bounded ctx st log_st original agent s in
      (b.lookups, b.creates, b.logs, λ i. (same.result i, same.after i))
