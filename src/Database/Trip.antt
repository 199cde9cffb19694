-- ===== src/Database/Trip.antt =====
-- A breakerDB: what a caller sees of the breaker, and how failures of the pool open it.
use production_ready_url_sho.Common.{ℕ, zero, suc, ◌≤◌, ◌<◌, ◌≡◌, ap, true, some, arith}
use production_ready_url_sho.Failure.{GoError, sentinel, circuit_open, open_state, is, err}
use production_ready_url_sho.Context.{Ctx}
use production_ready_url_sho.Sql.{Command, Query}
use production_ready_url_sho.Dbtx.{Dbtx}
use production_ready_url_sho.Breaker.{BreakerSettings, new_breaker, should_count}
use production_ready_url_sho.Breaker.Gobreaker.{Gobreaker, rejected, run_admitted}
use production_ready_url_sho.Breaker.Laws.{GobreakerLaws}
use production_ready_url_sho.Database.Outage.{
  Outage, guarded, Progress, new_breaker-Progress, Progress-opened, Progress-call,
}
use production_ready_url_sho.Database.{
  is_breaker_open, surfaced, breaker_exec, breaker_query, breaker_db, query_row, scan,
}

module _ {C S : Type 0} (g : Gobreaker C) (laws : GobreakerLaws g) (db : Dbtx S) where
  surfaced_rejection :
      (c : C) (e : GoError) → (g.admit c).0 ≡ rejected e → surfaced e ≡ sentinel circuit_open
  unfolding is_breaker_open is
  surfaced_rejection c e h = ground (arith, laws.rejection c e h)

  pub rejected_exec :
      (ctx : Ctx) (cmd : Command) (c : C) (s : S) (e : GoError)
      → (g.admit c).0 ≡ rejected e
      → breaker_exec g db ctx cmd (c, s) ≡ (err (sentinel circuit_open), ((g.admit c).1, s))
  unfolding breaker_exec run_admitted
  rejected_exec ctx cmd c s e h = ground (arith, surfaced_rejection c e h)

  pub rejected_query :
      (ctx : Ctx) (q : Query) (c : C) (s : S) (e : GoError)
      → (g.admit c).0 ≡ rejected e
      → breaker_query g db ctx q (c, s) ≡ (err (sentinel circuit_open), ((g.admit c).1, s))
  unfolding breaker_query run_admitted
  rejected_query ctx q c s e h = ground (arith, surfaced_rejection c e h)

  -- While the breaker rejects requests, `Exec`, `Query` and the `Scan` of a `QueryRow` all fail
  -- with the repository's "circuit open" error, and the pool behind is not touched.
  pub rejected_untouched :
      (ctx : Ctx) (cmd : Command) (q : Query) (c : C) (s : S) (e : GoError)
      → (g.admit c).0 ≡ rejected e
      → (breaker_exec g db ctx cmd (c, s) ≡ (err (sentinel circuit_open), ((g.admit c).1, s)))
        × (breaker_query g db ctx q (c, s) ≡ (err (sentinel circuit_open), ((g.admit c).1, s)))
        × (scan (query_row (breaker_db g db) ctx q (c, s)).0 ≡ err (sentinel circuit_open))
        × ((query_row (breaker_db g db) ctx q (c, s)).1.1 ≡ s)
  unfolding breaker_query query_row scan run_admitted
  rejected_untouched ctx cmd q c s e h =
      let same = surfaced_rejection c e h in
      (
        rejected_exec ctx cmd c s e h,
        rejected_query ctx q c s e h,
        ground (arith, same),
        ground (arith, same),
      )

  module _ (cfg : BreakerSettings) (ctx : Ctx) (cmd : Command) where
    -- Every call of the pool fails, with an error that counts.
    abbrev pub IsDown : Type 0
    IsDown =
        (s : S) → (e : GoError) × ((db.exec ctx cmd s).0 ≡ err e) × (should_count (some e) ≡ true)

    pool_down : IsDown → Outage (db.exec ctx cmd) (λ s. Unit {0})
    pool_down down = record { fails = λ s h. down s; lasts = λ s h. tt }

    Progress-exec :
        (k : ℕ) (x : C × S)
        → IsDown
        → Progress g laws cfg k x.0
        → Progress g laws cfg (suc k) (breaker_exec g db ctx cmd x).1.0
    unfolding breaker_exec guarded
    Progress-exec k (c, s) down p =
        (Progress-call g laws cfg (db.exec ctx cmd) (λ s. Unit {0}) (pool_down down) k c s tt p).0

    -- `n` calls, one after the other.
    pub calls : ℕ → C × S → C × S
    calls zero x = x
    calls (suc n) x = (breaker_exec g db ctx cmd (calls n x)).1

    Progress-calls :
        (n : ℕ) (c : C) (s : S)
        → IsDown
        → Progress g laws cfg 0 c
        → Progress g laws cfg n (calls n (c, s)).0
    unfolding calls
    Progress-calls zero c s down p = p
    Progress-calls (suc n) c s down p = Progress-exec n _ down (Progress-calls n c s down p)

    -- From a new breaker with any settings, before a pool whose every call of a command fails with
    -- an error that counts: after as many calls as the settings allow to fail in a row (at least
    -- one), the next `Exec` reports "circuit open" and leaves the pool untouched, provided the
    -- breaker's interval and timeout do not run out meanwhile.
    pub failures_open :
        (n : ℕ) (s : S)
        → laws.IsSteady (g.new_circuit_breaker (new_breaker cfg))
        → IsDown
        → 0 < n
        → cfg.consecutive_failures ≤ n
        → let x = calls n (g.new_circuit_breaker (new_breaker cfg), s) in
          ((breaker_exec g db ctx cmd x).0 ≡ err (sentinel circuit_open))
          × ((breaker_exec g db ctx cmd x).1.1 ≡ x.1)
    failures_open n s steady down pos enough =
        let c = g.new_circuit_breaker (new_breaker cfg) in
        let p = Progress-calls n c s down (new_breaker-Progress g laws cfg steady) in
        let (c', s') = calls n (c, s) in
        let opened_now = Progress-opened g laws cfg n c' pos enough p in
        let same =
          rejected_exec ctx cmd c' s' (sentinel open_state)
            (laws.opened_rejects c' p.steady opened_now) in
        (ap (λ x. x.0) same, ap (λ x. x.1.1) same)
