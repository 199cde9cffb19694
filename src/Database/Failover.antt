-- ===== src/Database/Failover.antt =====
-- Reads while the replica fails: its breaker opens, and they go to the primary; and reads while that
-- breaker is half-open, which do not.
use mathlib.Core.Path.{subst}
use production_ready_url_sho.Common.{
  ℕ, suc, ◌+◌, ◌≤◌, ◌<◌, ◌≡◌, ◌≢◌, inl, inr, refl, ap, ◌∙◌, some, List, [], ◌∷◌, length, arith,
}
use production_ready_url_sho.Failure.{sentinel, circuit_open, too_many_requests, err}
use production_ready_url_sho.Context.{Ctx}
use production_ready_url_sho.Sql.{Query}
use production_ready_url_sho.Dbtx.{Dbtx}
use production_ready_url_sho.Breaker.{BreakerSettings, new_breaker}
use production_ready_url_sho.Breaker.Gobreaker.{Gobreaker, State, closed, half_open, opened}
use production_ready_url_sho.Breaker.Laws.{GobreakerLaws, ProbeLaws}
use production_ready_url_sho.Database.{
  Pools, reader, on_side, primary_db, replica_db, on_primary, breaker_query,
}
use production_ready_url_sho.Database.Outage.{
  Outage, guarded, Progress, new_breaker-Progress, Progress-opened, Progress-call,
}
use production_ready_url_sho.Database.Trip.{rejected_query}
use production_ready_url_sho.Database.Sides.{read, replica_pool, read_fallback}

module _ {C S : Type 0} (g : Gobreaker C) (db : Dbtx S) (ctx : Ctx) (q : Query) (p : Pools C S)
    (c : C) (s : S) where
  read_opened :
      p.replica ≡ some (c, s)
      → g.state c ≡ (opened, c)
      → (read g db ctx q p).1.replica ≡ some (c, s)
  unfolding reader primary_db on_primary
  read_opened there state = ground arith

  -- Unless the breaker is open, the replica's breakerDB gets the query.
  read_not_opened :
      (st : State)
      → p.replica ≡ some (c, s)
      → g.state c ≡ (st, c)
      → st ≢ opened
      → ((read g db ctx q p).0 ≡ (breaker_query g db ctx q (c, s)).0)
        × ((read g db ctx q p).1.replica ≡ some (breaker_query g db ctx q (c, s)).1)
        × ((read g db ctx q p).1.primary ≡ p.primary)
  unfolding reader replica_db on_side
  read_not_opened closed there state h = rw there (rw (read, state) (refl, refl, refl))
  read_not_opened half_open there state h = rw there (rw (read, state) (refl, refl, refl))
  read_not_opened opened there state h = absurd (h refl)

module _ {C S : Type 0} (g : Gobreaker C) (laws : GobreakerLaws g) (db : Dbtx S)
    (cfg : BreakerSettings) where
  -- Reads, one after the other.
  unfoldable pub reads : List (Ctx × Query) → Pools C S → Pools C S
  reads [] p = p
  reads ((ctx, q) ∷ rest) p = reads rest (read g db ctx q p).1

  module _ (Down : S → Type 0)
      (outage : (ctx : Ctx) (q : Query) → Outage (db.query ctx q) Down) where
    -- The replica after `k` reads of an outage.
    record Failing (k : ℕ) (p : Pools C S) : Type 0 where
      breaker : C
      pool : S
      there : p.replica ≡ some (breaker, pool)
      progress : Progress g laws cfg k breaker
      down : Down pool

    Failing-read :
        (k : ℕ) (ctx : Ctx) (q : Query) (p : Pools C S)
        → Failing k p
        → Failing (suc k) (read g db ctx q p).1
    unfolding breaker_query guarded
    Failing-read k ctx q p f = elim f.progress.position [
      | inl opened_now ↦ record {
        breaker = f.breaker;
        pool = f.pool;
        there =
            read_opened g db ctx q p f.breaker f.pool f.there
              (laws.state_mode f.breaker f.progress.steady ∙ ap (λ m. (m, f.breaker)) opened_now);
        progress = record {
          steady = f.progress.steady;
          configured = f.progress.configured;
          position = inl opened_now;
        };
        down = f.down;
      }
      | inr (closed_now, _, _) ↦
          let (progress, down) =
            Progress-call g laws cfg (db.query ctx q) Down (outage ctx q) k f.breaker f.pool f.down
              f.progress in
          let x = (guarded g (db.query ctx q) (f.breaker, f.pool)).1 in
          let (_, there, _) =
            read_not_opened g db ctx q p f.breaker f.pool closed f.there
              (laws.state_mode f.breaker f.progress.steady ∙ ap (λ m. (m, f.breaker)) closed_now)
              (λ e. cc) in
          record { breaker = x.0; pool = x.1; there = there; progress = progress; down = down }
    ]

    Failing-reads :
        (qs : List (Ctx × Query)) (k : ℕ) (p : Pools C S)
        → Failing k p
        → Failing (length qs + k) (reads qs p)
    unfolding reads
    Failing-reads [] k p f =
        let none_more : k ≡ 0 + k = omega arith in subst (λ n. Failing n p) none_more f
    Failing-reads ((ctx, q) ∷ qs) k p f =
        let one_more : length qs + suc k ≡ suc (length qs) + k = omega arith in
        subst (λ n. Failing n (reads qs (read g db ctx q p).1)) one_more
          (Failing-reads qs (suc k) (read g db ctx q p).1 (Failing-read k ctx q p f))

    -- A replica with a new breaker, and a pool whose every query fails with an error that counts: after
    -- as many reads as the settings allow to fail in a row (at least one), a read is the same query
    -- on the primary's breakerDB, with its result, and the replica's pool is not reached, provided
    -- the interval and the timeout of the replica's breaker do not run out meanwhile.
    pub outage_falls_back :
        (qs : List (Ctx × Query)) (ctx : Ctx) (q : Query) (p : Pools C S) (s : S)
        → laws.IsSteady (g.new_circuit_breaker (new_breaker cfg))
        → p.replica ≡ some (g.new_circuit_breaker (new_breaker cfg), s)
        → Down s
        → 0 < length qs
        → cfg.consecutive_failures ≤ length qs
        → let after = reads qs p in
          let x = read g db ctx q after in
          (x.0 ≡ (breaker_query g db ctx q after.primary).0)
          × (x.1.primary ≡ (breaker_query g db ctx q after.primary).1)
          × (replica_pool x.1.replica ≡ replica_pool after.replica)
    outage_falls_back qs ctx q p s steady there down some_read enough =
        let start : Failing 0 p = record {
          breaker = g.new_circuit_breaker (new_breaker cfg);
          pool = s;
          there = there;
          progress = new_breaker-Progress g laws cfg steady;
          down = down;
        } in
        let f = Failing-reads qs 0 p start in
        let opened_now =
          Progress-opened g laws cfg (length qs + 0) f.breaker (omega (arith, some_read))
            (omega (arith, enough)) f.progress in
        read_fallback g db ctx q (reads qs p) (
          inr (
            f.breaker,
            f.pool,
            f.there,
            ap (λ x. x.0) (laws.state_mode f.breaker f.progress.steady) ∙ opened_now,
          ))

module _ {C S : Type 0} (g : Gobreaker C) (laws : GobreakerLaws g) (probes : ProbeLaws g laws)
    (db : Dbtx S) where
  -- While the replica's breaker is half-open and has let through as many queries as `MaxRequests`
  -- says, a read fails with "circuit open": it neither falls back to the primary, whatever the state
  -- of that, nor reaches the replica's pool.
  pub half_open_read_fails :
      (ctx : Ctx) (q : Query) (p : Pools C S) (c : C) (s : S)
      → p.replica ≡ some (c, s)
      → laws.IsSteady c
      → laws.mode c ≡ half_open
      → (g.settings c).max_requests ≤ (laws.counts c).requests
      → let x = read g db ctx q p in
        (x.0 ≡ err (sentinel circuit_open))
        × (x.1.primary ≡ p.primary)
        × (replica_pool x.1.replica ≡ some s)
  half_open_read_fails ctx q p c s there steady half_open_now busy =
      let state = laws.state_mode c steady ∙ ap (λ m. (m, c)) half_open_now in
      let (result, replica, primary) =
        read_not_opened g db ctx q p c s half_open there state (λ e. cc) in
      let rejection = probes.probe_limited c steady half_open_now busy in
      let same = rejected_query g laws db ctx q c s (sentinel too_many_requests) rejection in
      (result ∙ ap (λ x. x.0) same, primary, ap replica_pool replica ∙ ap (λ x. some x.1.1) same)
