-- ===== src/Database/Pooled.antt =====
-- A breakerDB over a pool: what is relied on of the pool, and what a call through the breaker gives.
pub mod Routed
pub mod Replicated
use production_ready_url_sho.Common.{
  ℕ, ◌≡◌, inl, inr, ◌∙◌, refl, ap, Bool, true, false, Bool-cases, ltb, chars, ◌||◌,
}
use production_ready_url_sho.Failure.{is, as_pg, Result, ok, error_of}
use production_ready_url_sho.Context.{Ctx}
use production_ready_url_sho.Model.{Url, IncomingRequest}
use production_ready_url_sho.Sql.{
  Command, insert_url, update_last_used, delete_unused, insert_request, execute, Query, Tables,
  insert_into_urls, insert_into_requests, has_id, has_live_key, has_request_id,
}
use production_ready_url_sho.Dbtx.{Dbtx}
use production_ready_url_sho.Breaker.{BreakerSettings, new_breaker, should_count}
use production_ready_url_sho.Breaker.Gobreaker
use production_ready_url_sho.Breaker.Gobreaker.{
  Gobreaker, Settings, closed, admitted, rejected, Admission, run_admitted,
}
use production_ready_url_sho.Breaker.Laws.{GobreakerLaws}
use production_ready_url_sho.Database.{
  is_breaker_open, surfaced, surface, breaker_exec, breaker_query,
}
use production_ready_url_sho.Repository.Postgres.{delivered, Exec, ran, refused, lost}

-- What is relied on of one pool.
pub record PoolLaws {S : Type 0} (db : Dbtx S) : Type 1 where
  pub tables : S → Tables
  pub IsCalm : S → Type 0
  pub exec_honest :
      (ctx : Ctx) (cmd : Command) (s : S)
      → Exec (tables s) cmd (db.exec ctx cmd s).0 (tables (db.exec ctx cmd s).1)
  pub query_pure : (ctx : Ctx) (q : Query) (s : S) → tables (db.query ctx q s).1 ≡ tables s
  pub exec_calm :
      (ctx : Ctx) (cmd : Command) (s : S)
      → IsCalm s
      → ((db.exec ctx cmd s).0 ≡ (execute cmd (tables s)).0)
        × (tables (db.exec ctx cmd s).1 ≡ (execute cmd (tables s)).1)
        × IsCalm (db.exec ctx cmd s).1
  pub query_calm :
      (ctx : Ctx) (q : Query) (s : S)
      → IsCalm s
      → ((db.query ctx q s).0 ≡ ok (delivered q (tables s))) × IsCalm (db.query ctx q s).1

-- A constraint violation is not the database's fault, and is passed on as it is.
abbrev IsPlain : Result ℕ → Type 0
IsPlain r = (should_count (error_of r) ≡ false) × (surface r ≡ r)

insert_url-IsPlain : (u : Url) (t : Tables) → IsPlain (insert_into_urls u t).0
unfolding insert_into_urls should_count is as_pg is_breaker_open
insert_url-IsPlain u t = elim (Bool-cases (ltb 11 (chars u.short_key))) [
  | inl long ↦ rw long (refl, refl)
  | inr fits ↦ elim (Bool-cases (has_id u.id t.urls || has_live_key u.short_key t.urls)) [
    | inl taken ↦ rw (fits, taken) (refl, refl)
    | inr free ↦ rw (fits, free) (refl, refl)
  ]
]

insert_request-IsPlain : (r : IncomingRequest) (t : Tables) → IsPlain (insert_into_requests r t).0
unfolding insert_into_requests should_count is as_pg is_breaker_open
insert_request-IsPlain r t = elim (Bool-cases (ltb 45 (chars r.ip_address))) [
  | inl long ↦ rw long (refl, refl)
  | inr fits ↦ elim (Bool-cases (has_request_id r.id t.incoming_requests)) [
    | inl taken ↦ rw (fits, taken) (refl, refl)
    | inr free ↦ elim (Bool-cases (has_id r.url_id t.urls)) [
      | inl known ↦ rw (fits, free, known) (refl, refl)
      | inr unknown ↦ rw (fits, free, unknown) (refl, refl)
    ]
  ]
]

execute-IsPlain : (cmd : Command) (t : Tables) → IsPlain (execute cmd t).0
unfolding execute should_count
execute-IsPlain (insert_url u) t = insert_url-IsPlain u t
execute-IsPlain (update_last_used at id) t = (refl, refl)
execute-IsPlain (delete_unused at cutoff) t = (refl, refl)
execute-IsPlain (insert_request r) t = insert_request-IsPlain r t

-- What the caller gets of a call that failed or ran.
surface-Exec :
    {t t' : Tables} {cmd : Command} {r : Result ℕ} → Exec t cmd r t' → Exec t cmd (surface r) t'
surface-Exec {t} {cmd} (ran p q) = ran (rw p (execute-IsPlain cmd t).1) q
surface-Exec (refused e p q) = refused (surfaced e) (rw p refl) q
surface-Exec (lost e p q) = lost (surfaced e) (rw p refl) q

module _ {C S : Type 0} (g : Gobreaker C) (laws : GobreakerLaws g) (cfg : BreakerSettings)
    (db : Dbtx S) (pool : PoolLaws db) where
  run_admitted-Exec :
      (ctx : Ctx) (cmd : Command) (st : Settings) (x : Admission × C) (s : S)
      → let (r, _, s') = run_admitted g st x (db.exec ctx cmd) s in
        Exec (pool.tables s) cmd (surface r) (pool.tables s')
  unfolding run_admitted
  run_admitted-Exec ctx cmd st (rejected e, c) s = refused (surfaced e) refl refl
  run_admitted-Exec ctx cmd st (admitted, c) s = surface-Exec (pool.exec_honest ctx cmd s)

  pub breaker_exec-Exec :
      (ctx : Ctx) (cmd : Command) (x : C × S)
      → let (r, x') = breaker_exec g db ctx cmd x in Exec (pool.tables x.1) cmd r (pool.tables x'.1)
  unfolding breaker_exec Gobreaker.execute
  breaker_exec-Exec ctx cmd (c, s) = run_admitted-Exec ctx cmd (g.settings c) (g.admit c) s

  run_admitted-tables :
      (ctx : Ctx) (q : Query) (st : Settings) (x : Admission × C) (s : S)
      → pool.tables (run_admitted g st x (db.query ctx q) s).2 ≡ pool.tables s
  unfolding run_admitted
  run_admitted-tables ctx q st (rejected e, c) s = refl
  run_admitted-tables ctx q st (admitted, c) s = pool.query_pure ctx q s

  pub breaker_query-tables :
      (ctx : Ctx) (q : Query) (x : C × S)
      → pool.tables (breaker_query g db ctx q x).1.1 ≡ pool.tables x.1
  unfolding breaker_query Gobreaker.execute
  breaker_query-tables ctx q (c, s) = run_admitted-tables ctx q (g.settings c) (g.admit c) s

  breaker_exec-admitted :
      (ctx : Ctx) (cmd : Command) (st : Settings) (x : Admission × C) (s : S)
      → x.0 ≡ admitted
      → run_admitted g st x (db.exec ctx cmd) s ≡ (
        (db.exec ctx cmd s).0,
        g.report (st.is_successful (error_of (db.exec ctx cmd s).0)) x.1,
        (db.exec ctx cmd s).1,
      )
  unfolding run_admitted
  breaker_exec-admitted ctx cmd st (admitted, c) s h = refl
  breaker_exec-admitted ctx cmd st (rejected e, c) s h = cc

  breaker_query-admitted :
      (ctx : Ctx) (q : Query) (st : Settings) (x : Admission × C) (s : S)
      → x.0 ≡ admitted
      → run_admitted g st x (db.query ctx q) s ≡ (
        (db.query ctx q s).0,
        g.report (st.is_successful (error_of (db.query ctx q s).0)) x.1,
        (db.query ctx q s).1,
      )
  unfolding run_admitted
  breaker_query-admitted ctx q st (admitted, c) s h = refl
  breaker_query-admitted ctx q st (rejected e, c) s h = cc

  -- The primary's breaker after a call that counts as a success.
  pub record IsReady (c : C) : Type 0 where
    pub steady : laws.IsSteady c
    pub configured : g.settings c ≡ new_breaker cfg
    pub closed_now : laws.mode c ≡ closed

  IsReady-success : (c : C) (b : Bool) → IsReady c → b ≡ true → IsReady (g.report b (g.admit c).1)
  IsReady-success c b h e =
      let steady = laws.steady_admit c h.steady in
      let (mode, _) =
        laws.success_counted (g.admit c).1 steady (laws.closed_stays c h.steady h.closed_now) in
      rw e (record {
        steady = laws.steady_report true _ steady;
        configured = laws.settings_report true _ ∙ laws.settings_admit c ∙ h.configured;
        closed_now = mode;
      })

  pub breaker_exec-calm :
      (ctx : Ctx) (cmd : Command) (c : C) (s : S)
      → IsReady c
      → pool.IsCalm s
      → let (r, x) = breaker_exec g db ctx cmd (c, s) in
        (r ≡ (execute cmd (pool.tables s)).0)
        × (pool.tables x.1 ≡ (execute cmd (pool.tables s)).1)
        × IsReady x.0
        × pool.IsCalm x.1
  unfolding breaker_exec Gobreaker.execute new_breaker
  breaker_exec-calm ctx cmd c s h calm =
      let (result, after, calm') = pool.exec_calm ctx cmd s calm in
      let (fine, plain) = execute-IsPlain cmd (pool.tables s) in
      let success : (g.settings c).is_successful (error_of (db.exec ctx cmd s).0) ≡ true =
        rw (h.configured, result, fine) refl in
      rw
        (breaker_exec-admitted ctx cmd (g.settings c) (g.admit c) s
          (laws.closed_admits c h.closed_now))
        (ap surface result ∙ plain, after, IsReady-success c _ h success, calm')

  pub breaker_query-calm :
      (ctx : Ctx) (q : Query) (c : C) (s : S)
      → IsReady c
      → pool.IsCalm s
      → let (r, x) = breaker_query g db ctx q (c, s) in
        (r ≡ ok (delivered q (pool.tables s))) × IsReady x.0 × pool.IsCalm x.1
  unfolding breaker_query Gobreaker.execute new_breaker should_count
  breaker_query-calm ctx q c s h calm =
      let (result, calm') = pool.query_calm ctx q s calm in
      let success : (g.settings c).is_successful (error_of (db.query ctx q s).0) ≡ true =
        rw (h.configured, result) refl in
      rw
        (breaker_query-admitted ctx q (g.settings c) (g.admit c) s
          (laws.closed_admits c h.closed_now))
        (ap surface result, IsReady-success c _ h success, calm')
