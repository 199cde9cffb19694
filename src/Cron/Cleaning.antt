-- ===== src/Cron/Cleaning.antt =====
-- What the cron's loop does to the stored URLs: its ticks, the gate and the cleanup together.
use production_ready_url_sho.Common.{
  ℕ, ◌≡◌, ◌∙◌, refl, ap, String, Bool, true, false, Option, List, [], ◌∷◌, ℤ, Bool-cases, inl, inr,
  if◌then◌else◌,
}
use production_ready_url_sho.Failure.{Result, ok, err}
use production_ready_url_sho.Context.{Ctx}
use production_ready_url_sho.Model.{Url}
use production_ready_url_sho.Sql.{Tables, delete_unused}
use production_ready_url_sho.Sql.Constraints.{IsConsistent, execute-IsConsistent}
use production_ready_url_sho.Sql.Selecting.{find_live}
use production_ready_url_sho.Repository.{UrlRepository}
use production_ready_url_sho.Repository.Calm.{UrlRefines, table_urls}
use production_ready_url_sho.Cleanup.{cutoff_time, run_cleanup}
use production_ready_url_sho.Cleanup.Exactness.{used_since, cleanup_exact}
use production_ready_url_sho.Leader.{LockPool, tried, with_conn, run}
use production_ready_url_sho.Cron.{Event, tick, done, cleanup_lock_key, on_tick, loop}

-- A row after cleanups with these cutoffs.
abbrev pub survives : List ℕ → Option Url → Option Url
survives [] row = row
survives (cutoff ∷ cutoffs) row = survives cutoffs (used_since cutoff row)

module _ {S : Type 0} (view : S → Tables) (Inv : S → Type 0) where
  -- A call that leaves the stored tables alone.
  abbrev pub Keeps : (S → S) → Type 0
  Keeps f = (s : S) → Inv s → (view (f s) ≡ view s) × Inv (f s)

  -- The calls on the gate's connections do not change the tables.
  pub record GateLaws (pool : LockPool S) : Type 0 where
    pub acquire : (ctx : Ctx) → Keeps (λ s. (pool.acquire ctx s).1)
    pub ask : (ctx : Ctx) (c : ℕ) (key : ℤ) → Keeps (λ s. (pool.try_advisory_lock ctx c key s).1)
    pub unlock : (c : ℕ) (key : ℤ) → Keeps (λ s. (pool.advisory_unlock c key s).1)
    pub release : (c : ℕ) → Keeps (pool.release c)

module _ {S : Type 0} (view : S → Tables) (Inv : S → Type 0) (pool : LockPool S)
    (gate : GateLaws view Inv pool) (urls : UrlRepository S)
    (refines : UrlRefines view Inv urls table_urls) (threshold : ℤ) (ctx : Ctx) where
  abbrev granted_by : Result Bool → Bool
  granted_by (ok b) = b
  granted_by (err e) = false

  abbrev asked : Result ℕ × S → Result Bool
  asked (err e, s) = err e
  asked (ok c, s) = (pool.try_advisory_lock ctx c cleanup_lock_key s).0

  -- Whether the lock is granted at a tick.
  abbrev pub granted : S → Bool
  granted s = granted_by (asked (pool.acquire ctx s))

  -- What a tick that did or did not get the lock leaves, where the tables were `t`.
  record Ticked (cutoff : ℕ) (got : Bool) (t : Tables) (s : S) : Type 0 where
    calm : Inv s
    consistent : IsConsistent (view s).urls
    resolves :
        (key : String)
        → find_live key (view s).urls
          ≡ (if got then used_since cutoff (find_live key t.urls) else find_live key t.urls)

  -- One more call that keeps the tables.
  Ticked-Keeps :
      (cutoff : ℕ) (got : Bool) (t : Tables) (s : S) (f : S → S)
      → Keeps view Inv f
      → Ticked cutoff got t s
      → Ticked cutoff got t (f s)
  Ticked-Keeps cutoff got t s f keeps h =
      let (same, calm) = keeps s h.calm in
      record {
        calm = calm;
        consistent = rw same h.consistent;
        resolves = λ key. ap (λ (x : Tables). find_live key x.urls) same ∙ h.resolves key;
      }

  unchanged :
      (cutoff : ℕ) (s : S) → Inv s → IsConsistent (view s).urls → Ticked cutoff false (view s) s
  unchanged cutoff s calm h = record { calm = calm; consistent = h; resolves = λ key. refl }

  cleaned :
      (now later : ℕ) (s : S)
      → Inv s
      → IsConsistent (view s).urls
      → Ticked
          (cutoff_time now threshold)
          true
          (view s)
          (run_cleanup urls threshold ctx now later s).1
  unfolding run_cleanup
  cleaned now later s calm h =
      let cutoff = cutoff_time now threshold in
      let d = refines.delete ctx later cutoff in
      let after = d.after s calm in
      record {
        calm = d.keeps s calm;
        consistent = rw after (execute-IsConsistent (delete_unused later cutoff) (view s) h);
        resolves = λ key.
            ap (λ (x : Tables). find_live key x.urls) after
            ∙ cleanup_exact threshold ctx now later key (view s) h;
      }

  tried-Ticked :
      (now later c : ℕ) (r : Result Bool) (s : S)
      → Inv s
      → IsConsistent (view s).urls
      → Ticked
          (cutoff_time now threshold)
          (granted_by r)
          (view s)
          (tried pool ctx cleanup_lock_key (λ c. run_cleanup urls threshold c now later) c (r, s)).1
  unfolding tried
  tried-Ticked now later c (err e) s calm h = unchanged (cutoff_time now threshold) s calm h
  tried-Ticked now later c (ok false) s calm h = unchanged (cutoff_time now threshold) s calm h
  tried-Ticked now later c (ok true) s calm h =
      Ticked-Keeps (cutoff_time now threshold) true (view s)
        (run_cleanup urls threshold ctx now later s).1
        (λ s. (pool.advisory_unlock c cleanup_lock_key s).1) (gate.unlock c cleanup_lock_key)
        (cleaned now later s calm h)

  with_conn-Ticked :
      (now later : ℕ) (r : Result ℕ) (s : S)
      → Inv s
      → IsConsistent (view s).urls
      → Ticked
          (cutoff_time now threshold)
          (granted_by (asked (r, s)))
          (view s)
          (with_conn pool ctx cleanup_lock_key
            (λ c. run_cleanup urls threshold c now later)
            (r, s)).1
  unfolding with_conn
  with_conn-Ticked now later (err e) s calm h = unchanged (cutoff_time now threshold) s calm h
  with_conn-Ticked now later (ok c) s calm h =
      let x = pool.try_advisory_lock ctx c cleanup_lock_key s in
      let (same, calm') = gate.ask ctx c cleanup_lock_key s calm in
      let done_it = tried-Ticked now later c x.0 x.1 calm' (rw same h) in
      Ticked-Keeps (cutoff_time now threshold) (granted_by x.0) (view s)
        (tried pool ctx cleanup_lock_key (λ c. run_cleanup urls threshold c now later) c x).1
        (pool.release c) (gate.release c) (rw same at done_it)

  on_tick-Ticked :
      (now later : ℕ) (s : S)
      → Inv s
      → IsConsistent (view s).urls
      → Ticked
          (cutoff_time now threshold)
          (granted s)
          (view s)
          (on_tick pool (run_cleanup urls threshold) ctx now later s)
  unfolding on_tick run
  on_tick-Ticked now later s calm h =
      let x = pool.acquire ctx s in
      let (same, calm') = gate.acquire ctx s calm in
      rw same at (with_conn-Ticked now later x.0 x.1 calm' (rw same h))

  -- The cutoffs of the ticks that got the lock, in the order of the ticks.
  abbrev pub cutoffs : List Event → S → List ℕ
  cutoffs [] s = []
  cutoffs (done ∷ events) s = []
  cutoffs (tick now later ∷ events) s =
      let rest = cutoffs events (on_tick pool (run_cleanup urls threshold) ctx now later s) in
      if granted s then cutoff_time now threshold ∷ rest else rest

  -- On tables whose URLs are consistent, and while no statement fails: after any number of ticks a
  -- key resolves exactly if it resolved before to a row whose last use is not before the cutoff of
  -- any tick at which this replica got the lock, and then to that same row. The other ticks, with
  -- the lock elsewhere, a failed question or no connection, change nothing, and neither does a
  -- failed unlock.
  pub cron_cleans :
      (events : List Event) (s : S) (key : String)
      → Inv s
      → IsConsistent (view s).urls
      → find_live key (view (loop pool (run_cleanup urls threshold) ctx events s)).urls
        ≡ survives (cutoffs events s) (find_live key (view s).urls)
  unfolding loop
  cron_cleans [] s key calm h = refl
  cron_cleans (done ∷ events) s key calm h = refl
  cron_cleans (tick now later ∷ events) s key calm h =
      let step = on_tick-Ticked now later s calm h in
      let s' = on_tick pool (run_cleanup urls threshold) ctx now later s in
      let rest = cron_cleans events s' key step.calm step.consistent in
      let resolved = step.resolves key in
      elim (Bool-cases (granted s)) [
        | inl got ↦ rw got (rest ∙ ap (survives (cutoffs events s')) (rw got at resolved))
        | inr missed ↦ rw missed (rest ∙ ap (survives (cutoffs events s')) (rw missed at resolved))
      ]
