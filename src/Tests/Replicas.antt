-- ===== src/Tests/Replicas.antt =====
-- Two replicas at their cleanup, and the connections of one.
use production_ready_url_sho.Common.{
  ℕ, suc, ◌≡◌, ◌≢◌, ◌-◌, refl, ap, Bool, true, false, Option, none, some, pos, eqb, eqb_iff, arith,
  if◌then◌else◌, length,
}
use production_ready_url_sho.Failure.{ok}
use production_ready_url_sho.Context.{background}
use production_ready_url_sho.Leader.{LockPool, run}
use production_ready_url_sho.Leader.Sessions.{Accounting}
use production_ready_url_sho.Leader.Exclusion.{
  AdvisoryLock, AdvisoryLaws, Phase, idle, connected, running, finished, World, enter, acquires,
  gets_lock, returns, skips, Reachable, start, then_step, mutual_exclusion,
}
use production_ready_url_sho.Leader.Starvation.{
  Others, others_start, others_step, failed_unlock_starves,
}
use production_ready_url_sho.Leader.Adequacy.{
  Answers, begin, world_pool, task, Reaches, run-Reaches,
}
use production_ready_url_sho.Tests.Fixtures.{outage}

-- A lock that remembers its session.
abbrev try_holder : ℕ → Option ℕ → Bool × Option ℕ
try_holder c none = (true, some c)
try_holder c (some d) = (eqb d c, some d)

abbrev drop_holder : ℕ → Option ℕ → Option ℕ
drop_holder c none = none
drop_holder c (some d) = if eqb d c then none else some d

abbrev lock : AdvisoryLock (Option ℕ)
lock = record { try_lock = try_holder; unlock = drop_holder; session_end = drop_holder }

lock_granted : (c : ℕ) (l : Option ℕ) → (try_holder c l).0 ≡ true → (try_holder c l).1 ≡ some c
lock_granted c none h = refl
lock_granted c (some d) h = ap some ((eqb_iff d c).0 h)

lock_granted_free : (c d : ℕ) (l : Option ℕ) → (try_holder c l).0 ≡ true → l ≡ some d → d ≡ c
lock_granted_free c d none h e = cc
lock_granted_free c d (some x) h e = cc (e, (eqb_iff x c).0 h)

lock_denied : (c : ℕ) (l : Option ℕ) → (try_holder c l).0 ≡ false → (try_holder c l).1 ≡ l
lock_denied c none h = cc
lock_denied c (some d) h = refl

lock_other : (c d : ℕ) (l : Option ℕ) → d ≢ c → l ≡ some d → drop_holder c l ≡ some d
lock_other c d l other e = rw e (ground (arith, other))

abbrev lock_laws : AdvisoryLaws lock
lock_laws = record {
  holder = λ l. l;
  granted = lock_granted;
  granted_free = lock_granted_free;
  denied = lock_denied;
  unlock_other = lock_other;
  end_other = lock_other;
}

abbrev resting : World (Option ℕ)
resting = record { lock = none; phase = λ i. idle }

abbrev owner : ℕ → ℕ
owner c = c

-- Replica 1 gets the lock while replica 2 has its connection.
abbrev two_connected : World (Option ℕ)
two_connected = enter 2 (connected 2) (enter 1 (connected 1) resting)

abbrev one_running : World (Option ℕ)
one_running = enter 1 (running 1) (record two_connected { lock = some 1 })

one_running-Reachable : Reachable lock owner resting one_running
one_running-Reachable =
    then_step (then_step (then_step start (acquires 1 1 refl refl)) (acquires 2 2 refl refl))
      (gets_lock 1 1 refl refl)

mutual_exclusion_example : ◌≡◌ {A = ℕ} 1 1
mutual_exclusion_example =
    mutual_exclusion lock lock_laws owner resting one_running 1 1 1 1 (λ i. refl)
      one_running-Reachable refl refl

-- A pool whose state is the number of connections that are out; every unlock fails.
abbrev counting : LockPool ℕ
counting = record {
  acquire = λ ctx s. (ok s, suc s);
  try_advisory_lock = λ ctx c key s. (ok true, s);
  advisory_unlock = λ c key s. (some outage, s);
  release = λ c s. s - 1;
}

abbrev counting_books : Accounting counting
counting_books = record {
  out = λ s. s;
  acquire_ok = λ ctx s c h. refl;
  acquire_err = λ ctx s e h. cc;
  try_keeps = λ ctx c key s. refl;
  unlock_keeps = λ c key s. refl;
  release_returns = λ c n s h. omega arith;
}

-- Replica 1 is at its unlock; it fails, and replica 2 asks in vain.
abbrev one_finished : World (Option ℕ)
one_finished = enter 1 (finished 1) one_running

one_finished-Reachable : Reachable lock owner resting one_finished
one_finished-Reachable = then_step one_running-Reachable (returns 1 1 refl)

abbrev two_denied : World (Option ℕ)
two_denied = enter 2 idle (record (enter 1 idle one_finished) { lock = some 1 })

two_denied-Others : Others lock owner 1 (enter 1 idle one_finished) two_denied
two_denied-Others = others_step others_start (skips 2 2 refl refl) (λ e. omega (arith, e))

failed_unlock_starves_example : two_denied.phase 2 ≢ running 2
failed_unlock_starves_example =
    failed_unlock_starves lock lock_laws owner resting one_finished two_denied 1 1 2 2 (λ i. refl)
      one_finished-Reachable refl two_denied-Others (λ e. omega (arith, e))

-- Replica 2 takes a connection whenever it has none.
abbrev connect : Phase → World (Option ℕ) → World (Option ℕ)
connect idle w = enter 2 (connected 2) w
connect (connected c) w = w
connect (running c) w = w
connect (finished c) w = w

connect-Others :
    (p : Phase) (w : World (Option ℕ)) → w.phase 2 ≡ p → Others lock owner 1 w (connect p w)
connect-Others idle w e = others_step others_start (acquires 2 2 e refl) (λ h. omega (arith, h))
connect-Others (connected c) w e = others_start
connect-Others (running c) w e = others_start
connect-Others (finished c) w e = others_start

-- A run of replica 1 in which the task and the unlock fail, while replica 2 takes a connection.
abbrev unlucky : Answers (Option ℕ)
unlucky = record {
  acquired = ok 1;
  ask_error = none;
  task_error = some outage;
  unlock_error = some outage;
  meanwhile = λ n w. connect (w.phase 2) w;
}

owned : (c : ℕ) → unlucky.acquired ≡ ok c → owner c ≡ 1
owned c e = cc e

run-Reaches_example :
    Reaches lock owner 1 resting
      (run (world_pool lock 1 unlucky) background (pos 7) (task lock 1 unlucky) (begin resting)).1
run-Reaches_example =
    run-Reaches lock owner 1 unlucky (λ n w. connect-Others (w.phase 2) w refl) background (pos 7)
      resting refl owned

-- The task ran once, and replica 2 is connected.
ran_once :
    let t =
      (run
        (world_pool lock 1 unlucky)
        background
        (pos 7)
        (task lock 1 unlucky)
        (begin resting)).1 in
    (length t.ran ≡ 1) × (t.now.phase 2 ≡ connected 2)
unfolding run
ran_once = (refl, refl)
