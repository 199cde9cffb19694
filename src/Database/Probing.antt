-- ===== src/Database/Probing.antt =====
-- The half-open breaker before a pool: a single probe decides.
use production_ready_url_sho.Common.{
  ◌≤◌, ◌<◌, ◌≡◌, refl, ap, ◌∙◌, true, false, Bool, arith, Bool-cases, inl, inr, not,
}
use production_ready_url_sho.Failure.{err, error_of, sentinel, circuit_open, too_many_requests}
use production_ready_url_sho.Context.{Ctx}
use production_ready_url_sho.Sql.{Command}
use production_ready_url_sho.Dbtx.{Dbtx}
use production_ready_url_sho.Breaker.{BreakerSettings, new_breaker, should_count}
use production_ready_url_sho.Breaker.Gobreaker.{
  Gobreaker, State, closed, half_open, opened, admitted, Counts, Settings, no_counts, run_admitted,
}
use production_ready_url_sho.Breaker.Laws.{GobreakerLaws, ProbeLaws}
use production_ready_url_sho.Database.{surface, breaker_exec}
use production_ready_url_sho.Database.Trip.{rejected_exec}

-- The state after the probe, by whether its error counts.
abbrev pub verdict : Bool → State
verdict true = opened
verdict false = closed

module _ {C S : Type 0} (g : Gobreaker C) (laws : GobreakerLaws g) (probes : ProbeLaws g laws)
    (db : Dbtx S) (cfg : BreakerSettings) where
  -- A breaker whose timeout has just run out.
  pub record IsProbing (c : C) : Type 0 where
    pub steady : laws.IsSteady c
    pub configured : g.settings c ≡ new_breaker cfg
    pub half_open_now : laws.mode c ≡ half_open
    pub fresh : laws.counts c ≡ no_counts

  limit : (c : C) → g.settings c ≡ new_breaker cfg → (g.settings c).max_requests ≡ cfg.max_requests
  unfolding new_breaker
  limit c configured = ap (λ (s : Settings). s.max_requests) configured

  passed_on :
      (ctx : Ctx) (cmd : Command) (c : C) (s : S)
      → (g.admit c).0 ≡ admitted
      → g.settings c ≡ new_breaker cfg
      → let (r, s') = db.exec ctx cmd s in
        breaker_exec g db ctx cmd (c, s)
        ≡ (surface r, (g.report (not (should_count (error_of r))) (g.admit c).1, s'))
  unfolding breaker_exec run_admitted new_breaker
  passed_on ctx cmd c s h configured = rw (h, configured) refl

  -- A breaker with `MaxRequests` 1, whose timeout has just run out, lets one command through to the
  -- pool, with the pool's result; it opens again if the error of that counts, and closes if there is
  -- none or it does not count. While that probe is under way, every other command fails with "circuit
  -- open" and does not reach the pool.
  pub probe_decides :
      (ctx ctx' : Ctx) (cmd cmd' : Command) (c : C) (s s' : S)
      → cfg.max_requests ≡ 1
      → IsProbing c
      → let (r, after) = db.exec ctx cmd s in
        let x = breaker_exec g db ctx cmd (c, s) in
        (x.0 ≡ surface r)
        × (x.1.1 ≡ after)
        × (laws.mode x.1.0 ≡ verdict (should_count (error_of r)))
        × ((breaker_exec g db ctx' cmd' ((g.admit c).1, s')).0 ≡ err (sentinel circuit_open))
        × ((breaker_exec g db ctx' cmd' ((g.admit c).1, s')).1.1 ≡ s')
  probe_decides ctx ctx' cmd cmd' c s s' one p =
      let room : (laws.counts c).requests < (g.settings c).max_requests =
        omega (arith, one, ap (λ (n : Counts). n.requests) p.fresh, limit c p.configured) in
      let (goes, half_open_then, counted) = probes.probe_admitted c p.steady p.half_open_now room in
      let c' = (g.admit c).1 in
      let steady = laws.steady_admit c p.steady in
      let configured = laws.settings_admit c ∙ p.configured in
      let e = error_of (db.exec ctx cmd s).0 in
      let same = passed_on ctx cmd c s goes p.configured in
      let full : (g.settings c').max_requests ≤ (laws.counts c').requests = omega (
        arith,
        one,
        limit c' configured,
        ap (λ (n : Counts). n.requests) counted,
        ap (λ (n : Counts). n.requests) p.fresh,
      ) in
      let blocked =
        rejected_exec g laws db ctx' cmd' c' s' (sentinel too_many_requests)
          (probes.probe_limited c' steady half_open_then full) in
      let over : laws.mode (g.report (not (should_count e)) c') ≡ verdict (should_count e) =
        elim (Bool-cases (should_count e)) [
          | inl counts ↦ rw counts (probes.probe_failed c' steady half_open_then)
          | inr passes ↦
              rw passes
                (probes.probe_succeeded c' steady half_open_then
                  (omega (arith, one, limit c' configured))).0
        ] in
      (
        ap (λ x. x.0) same,
        ap (λ x. x.1.1) same,
        ap (λ x. laws.mode x.1.0) same ∙ over,
        ap (λ x. x.0) blocked,
        ap (λ x. x.1.1) blocked,
      )
