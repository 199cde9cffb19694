-- ===== src/Database/Outage.antt =====
-- How failures of a pool open the breaker before it, for any kind of call.
use production_ready_url_sho.Common.{
  ℕ, suc, ◌≤◌, ◌<◌, ◌≡◌, ◌⊎◌, inl, inr, refl, ap, ◌∙◌, true, false, some, arith, Bool-cases,
}
use production_ready_url_sho.Failure.{GoError, Result, err, sentinel, open_state}
use production_ready_url_sho.Breaker.{BreakerSettings, new_breaker, should_count, ready_to_trip}
use production_ready_url_sho.Breaker.Policy.{ready_to_trip_iff}
use production_ready_url_sho.Breaker.Gobreaker.{
  Gobreaker, closed, opened, rejected, run_admitted, execute, on_failure,
}
use production_ready_url_sho.Breaker.Laws.{GobreakerLaws}
use production_ready_url_sho.Database.{surface}

-- A call of the pool, through the breaker: what `breaker_exec` and `breaker_query` are.
unfoldable pub guarded :
    {C S A : Type 0} → Gobreaker C → (S → Result A × S) → C × S → Result A × (C × S)
unfolding execute
guarded g req (c, s) = let (r, c', s') = execute g req c s in (surface r, (c', s'))

-- From a state that is `Down`, every call fails with an error that counts, and it stays so.
pub record Outage {S A : Type 0} (req : S → Result A × S) (Down : S → Type 0) : Type 0 where
  pub fails :
      (s : S) → Down s → (e : GoError) × ((req s).0 ≡ err e) × (should_count (some e) ≡ true)
  pub lasts : (s : S) → Down s → Down (req s).1

module _ {C : Type 0} (g : Gobreaker C) (laws : GobreakerLaws g) (cfg : BreakerSettings) where
  -- What holds of the breaker after `k` failed calls.
  pub record Progress (k : ℕ) (c : C) : Type 0 where
    pub steady : laws.IsSteady c
    pub configured : g.settings c ≡ new_breaker cfg
    pub position :
        (laws.mode c ≡ opened)
        ⊎ ((laws.mode c ≡ closed)
            × ((laws.counts c).consecutive_failures ≡ k)
            × (0 < k → k < cfg.consecutive_failures))

  pub new_breaker-Progress :
      laws.IsSteady (g.new_circuit_breaker (new_breaker cfg))
      → Progress 0 (g.new_circuit_breaker (new_breaker cfg))
  new_breaker-Progress steady = record {
    steady = steady;
    configured = laws.settings_new (new_breaker cfg);
    position =
        inr
          (laws.mode_new _, rw (laws.counts_new (new_breaker cfg)) refl, λ h. absurd (omega arith));
  }

  -- After as many failures as the settings allow in a row, the breaker is open.
  pub Progress-opened :
      (k : ℕ) (c : C) → 0 < k → cfg.consecutive_failures ≤ k → Progress k c → laws.mode c ≡ opened
  Progress-opened k c pos enough p = elim p.position [
    | inl h ↦ h
    | inr (_, _, few) ↦ absurd (omega (arith, few pos))
  ]

  -- A breaker that rejects a call makes progress, too.
  pub Progress-rejected :
      (k : ℕ) (c : C) → laws.mode c ≡ opened → Progress k c → Progress (suc k) (g.admit c).1
  Progress-rejected k c opened_now p = record {
    steady = laws.steady_admit c p.steady;
    configured = laws.settings_admit c ∙ p.configured;
    position = inl (laws.opened_stays c p.steady opened_now);
  }

  failure_position :
      (k : ℕ) (c : C)
      → laws.IsSteady c
      → laws.mode c ≡ closed
      → g.settings c ≡ new_breaker cfg
      → (laws.counts c).consecutive_failures ≡ k
      → (laws.mode (g.report false c) ≡ opened)
        ⊎ ((laws.mode (g.report false c) ≡ closed)
            × ((laws.counts (g.report false c)).consecutive_failures ≡ suc k)
            × (0 < suc k → suc k < cfg.consecutive_failures))
  unfolding new_breaker
  failure_position k c steady closed_now configured count =
      elim (Bool-cases (ready_to_trip cfg (on_failure (laws.counts c)))) [
        | inl trips ↦ inl (laws.failure_trips c steady closed_now (rw configured trips))
        | inr stays ↦
            let (mode, counts) = laws.failure_counted c steady closed_now (rw configured stays) in
            let (_, ready) = ready_to_trip_iff cfg (on_failure (laws.counts c)) in
            inr (mode, rw counts (ap suc count), λ _. ground (arith, ready))
      ]

  module _ {S A : Type 0} (req : S → Result A × S) (Down : S → Type 0)
      (outage : Outage req Down) where
    -- The breaker and the pool after one failed call.
    failed_call :
        (c : C) (s : S)
        → Down s
        → laws.mode c ≡ closed
        → g.settings c ≡ new_breaker cfg
        → (guarded g req (c, s)).1 ≡ (g.report false (g.admit c).1, (req s).1)
    unfolding guarded run_admitted new_breaker
    failed_call c s down closed_now configured =
        let (e, failed, counted) = outage.fails s down in
        ground (arith, laws.closed_admits c closed_now)

    blocked_call :
        (c : C) (s : S) (e : GoError)
        → (g.admit c).0 ≡ rejected e
        → (guarded g req (c, s)).1 ≡ ((g.admit c).1, s)
    unfolding guarded run_admitted
    blocked_call c s e h = ground arith

    pub Progress-call :
        (k : ℕ) (c : C) (s : S)
        → Down s
        → Progress k c
        → let (c', s') = (guarded g req (c, s)).1 in Progress (suc k) c' × Down s'
    Progress-call k c s down p = elim p.position [
      | inl opened_now ↦
          rw (blocked_call c s (sentinel open_state) (laws.opened_rejects c p.steady opened_now))
            (Progress-rejected k c opened_now p, down)
      | inr (closed_now, count, _) ↦
          let steady = laws.steady_admit c p.steady in
          let configured = laws.settings_admit c ∙ p.configured in
          rw (failed_call c s down closed_now p.configured) (
            record {
              steady = laws.steady_report false _ steady;
              configured = laws.settings_report false _ ∙ configured;
              position =
                  failure_position k (g.admit c).1 steady (laws.closed_stays c p.steady closed_now)
                    configured (ground (arith, laws.request_counted c p.steady closed_now));
            },
            outage.lasts s down,
          )
    ]
