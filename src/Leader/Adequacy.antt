-- ===== src/Leader/Adequacy.antt =====
-- `Run` as it is written takes the steps of the relation in Exclusion, and no others, between those
-- of the other replicas.
use production_ready_url_sho.Common.{
  ℕ, ◌≡◌, ◌≢◌, ◌∙◌, refl, sym, Bool, true, false, Option, none, some, List, [], ◌∷◌, All, eqb,
  eqb_iff, Bool-cases, inl, inr, ℤ,
}
use production_ready_url_sho.Failure.{GoError, Result, ok, err}
use production_ready_url_sho.Context.{Ctx}
use production_ready_url_sho.Leader.{LockPool, tried, with_conn, run}
use production_ready_url_sho.Leader.Exclusion.{
  AdvisoryLock, Phase, idle, connected, running, finished, World, enter, Step, acquires, gets_lock,
  skips, fails_to_ask, returns, unlocks, fails_to_unlock, dies, Reachable, start, then_step,
}
use production_ready_url_sho.Leader.Starvation.{actor, Others, others_start, others_step}

-- What the calls of one `Run` meet: a session or an error, errors of the question, the task and the
-- unlock, and what the other replicas do before each of the four.
pub record Answers (L : Type 0) : Type 0 where
  pub acquired : Result ℕ
  pub ask_error : Option GoError
  pub task_error : Option GoError
  pub unlock_error : Option GoError
  pub meanwhile : ℕ → World L → World L

-- The world, those that it went through, and those in which the task ran, the last ones first.
pub record Trace (L : Type 0) : Type 0 where
  pub now : World L
  pub past : List (World L)
  pub ran : List (World L)

abbrev pub begin : {L : Type 0} → World L → Trace L
begin w = record { now = w; past = []; ran = [] }

abbrev pub become : {L : Type 0} → World L → Trace L → Trace L
become v t = record t { now = v; past = t.now ∷ t.past }

module _ {L : Type 0} (locks : AdvisoryLock L) (i : ℕ) (answers : Answers L) where
  -- The other replicas, before a call.
  abbrev wait : ℕ → Trace L → Trace L
  wait n t = become (answers.meanwhile n t.now) t

  abbrev acquire_in : Result ℕ → Trace L → Result ℕ × Trace L
  acquire_in (err e) t = (err e, t)
  acquire_in (ok c) t = (ok c, become (enter i (connected c) t.now) t)

  abbrev lock_in : ℕ → Bool × L → Trace L → Result Bool × Trace L
  lock_in c (true, l) t = (ok true, become (enter i (running c) (record t.now { lock = l })) t)
  lock_in c (false, l) t = (ok false, become (enter i idle (record t.now { lock = l })) t)

  abbrev ask_in : Option GoError → ℕ → Trace L → Result Bool × Trace L
  ask_in (some e) c t = (err e, become (enter i idle t.now) t)
  ask_in none c t = lock_in c (locks.try_lock c t.now.lock) t

  abbrev unlock_in : Option GoError → ℕ → Trace L → Option GoError × Trace L
  unlock_in (some e) c t = (some e, become (enter i idle t.now) t)
  unlock_in none c t =
      (none, become (enter i idle (record t.now { lock = locks.unlock c t.now.lock })) t)

  -- The pool of replica `i`, whose calls also say where the replica stands.
  abbrev pub world_pool : LockPool (Trace L)
  world_pool = record {
    acquire = λ ctx t. acquire_in answers.acquired (wait 0 t);
    try_advisory_lock = λ ctx c key t. ask_in answers.ask_error c (wait 1 t);
    advisory_unlock = λ c key t. unlock_in answers.unlock_error c (wait 3 t);
    release = λ c t. t;
  }

  abbrev finish : Phase → Phase
  finish idle = idle
  finish (connected c) = connected c
  finish (running c) = finished c
  finish (finished c) = finished c

  abbrev ended : Trace L → Trace L
  ended t = become (enter i (finish (t.now.phase i)) t.now) (record t { ran = t.now ∷ t.ran })

  -- The task notes the world that it runs in.
  abbrev pub task : Ctx → Trace L → Option GoError × Trace L
  task ctx t = (answers.task_error, ended (wait 2 t))

phase-enter : {L : Type 0} (i : ℕ) (p : Phase) (w : World L) → (enter i p w).phase i ≡ p
phase-enter i p w = rw ((eqb_iff i i).1 refl) refl

phase-elsewhere :
    {L : Type 0} (i k : ℕ) (p : Phase) (w : World L) → k ≢ i → (enter k p w).phase i ≡ w.phase i
phase-elsewhere i k p w other = elim (Bool-cases (eqb i k)) [
  | inl same ↦ absurd (other (sym ((eqb_iff i k).0 same)))
  | inr apart ↦ rw apart refl
]

module _ {L : Type 0} (locks : AdvisoryLock L) (owner : ℕ → ℕ) (i : ℕ) where
  phase-Step :
      (w w' : World L) (s : Step locks owner w w')
      → actor locks owner s ≢ i
      → w'.phase i ≡ w.phase i
  phase-Step w w' (acquires k c e own) other = phase-elsewhere i k (connected c) w other
  phase-Step w w' (gets_lock k c e got) other = phase-elsewhere i k (running c) w other
  phase-Step w w' (skips k c e none_got) other = phase-elsewhere i k idle w other
  phase-Step w w' (fails_to_ask k c e) other = phase-elsewhere i k idle w other
  phase-Step w w' (returns k c e) other = phase-elsewhere i k (finished c) w other
  phase-Step w w' (unlocks k c e) other = phase-elsewhere i k idle w other
  phase-Step w w' (fails_to_unlock k c e) other = phase-elsewhere i k idle w other
  phase-Step w w' (dies k c own) other = phase-elsewhere i k idle w other

  -- The other replicas take steps, and leave this one where it stands.
  Others-Reachable :
      (w v v' : World L)
      → Reachable locks owner w v
      → Others locks owner i v v'
      → Reachable locks owner w v' × (v'.phase i ≡ v.phase i)
  Others-Reachable w v v' r others_start = (r, refl)
  Others-Reachable w v v' r (others_step {v = u} before s other) =
      let (reached, same) = Others-Reachable w v u r before in
      (then_step reached s, phase-Step u v' s other ∙ same)

  -- Every world was reached by the relation, and the task ran only under this replica's `running`.
  pub record Traced (w : World L) (t : Trace L) : Type 0 where
    pub now : Reachable locks owner w t.now
    pub past : All (λ v. Reachable locks owner w v) t.past
    pub ran : All (λ v. (c : ℕ) × (v.phase i ≡ running c)) t.ran

  -- And the replica is out of `Run` again.
  abbrev pub Reaches : World L → Trace L → Type 0
  Reaches w t = Traced w t × (t.now.phase i ≡ idle)

  become-Traced :
      (w v : World L) (t : Trace L) → Traced w t → Step locks owner t.now v → Traced w (become v t)
  become-Traced w v t h s = record { now = then_step h.now s; past = (h.now, h.past); ran = h.ran }

module _ {L : Type 0} (locks : AdvisoryLock L) (owner : ℕ → ℕ) (i : ℕ) (answers : Answers L)
    (others : (n : ℕ) (v : World L) → Others locks owner i v (answers.meanwhile n v)) (ctx : Ctx)
    (key : ℤ) where
  wait-Traced :
      (n : ℕ) (w : World L) (t : Trace L)
      → Traced locks owner i w t
      → Traced locks owner i w (wait locks i answers n t)
        × ((answers.meanwhile n t.now).phase i ≡ t.now.phase i)
  wait-Traced n w t h =
      let (reached, same) =
        Others-Reachable locks owner i w t.now (answers.meanwhile n t.now) h.now (others n t.now) in
      (record { now = reached; past = (h.now, h.past); ran = h.ran }, same)

  unlock_in-Reaches :
      (c : ℕ) (e : Option GoError) (w : World L) (t : Trace L)
      → Traced locks owner i w t
      → t.now.phase i ≡ finished c
      → Reaches locks owner i w (unlock_in locks i answers e c t).1
  unlock_in-Reaches c (some e) w t h at_end =
      (become-Traced locks owner i w _ t h (fails_to_unlock i c at_end), phase-enter i idle t.now)
  unlock_in-Reaches c none w t h at_end = (
    become-Traced locks owner i w _ t h (unlocks i c at_end),
    phase-enter i idle (record t.now { lock = locks.unlock c t.now.lock }),
  )

  -- The task runs and returns.
  ended-Traced :
      (c : ℕ) (p : Phase) (w : World L) (t : Trace L)
      → Traced locks owner i w t
      → t.now.phase i ≡ running c
      → p ≡ running c
      → let v = enter i (finish locks i answers p) t.now in
        Traced locks owner i w (become v (record t { ran = t.now ∷ t.ran }))
        × (v.phase i ≡ finished c)
  ended-Traced c p w t h runs e =
      let noted : Traced locks owner i w (record t { ran = t.now ∷ t.ran }) = record {
        now = h.now;
        past = h.past;
        ran = ((c, runs), h.ran);
      } in
      rw e (
        become-Traced locks owner i w (enter i (finished c) t.now) _ noted (returns i c runs),
        phase-enter i (finished c) t.now,
      )

  -- The unlock follows the task.
  held-Reaches :
      (c : ℕ) (w : World L) (t : Trace L)
      → Traced locks owner i w t
      → t.now.phase i ≡ running c
      → Reaches locks owner i w
          ((world_pool locks i answers).advisory_unlock c key (task locks i answers ctx t).1).1
  held-Reaches c w t h runs =
      let (waited, still) = wait-Traced 2 w t h in
      let (after, at_end) =
        ended-Traced c _ w (wait locks i answers 2 t) waited (still ∙ runs) (still ∙ runs) in
      let (again, kept) = wait-Traced 3 w _ after in
      unlock_in-Reaches c answers.unlock_error w _ again (kept ∙ at_end)

  abbrev tried_in : ℕ → Result Bool × Trace L → Option GoError × Trace L
  tried_in = tried (world_pool locks i answers) ctx key (task locks i answers)

  locked-Reaches :
      (c : ℕ) (got : Bool) (w : World L) (t : Trace L)
      → Traced locks owner i w t
      → t.now.phase i ≡ connected c
      → (locks.try_lock c t.now.lock).0 ≡ got
      → Reaches locks owner i w
          (tried_in c (lock_in locks i answers c (got, (locks.try_lock c t.now.lock).1) t)).1
  unfolding tried
  locked-Reaches c false w t h here denied = (
    become-Traced locks owner i w _ t h (skips i c here denied),
    phase-enter i idle (record t.now { lock = (locks.try_lock c t.now.lock).1 }),
  )
  locked-Reaches c true w t h here granted =
      let held : World L = record t.now { lock = (locks.try_lock c t.now.lock).1 } in
      held-Reaches c w (become (enter i (running c) held) t)
        (become-Traced locks owner i w _ t h (gets_lock i c here granted))
        (phase-enter i (running c) held)

  tried-Reaches :
      (c : ℕ) (e : Option GoError) (w : World L) (t : Trace L)
      → Traced locks owner i w t
      → t.now.phase i ≡ connected c
      → Reaches locks owner i w (tried_in c (ask_in locks i answers e c t)).1
  unfolding tried
  tried-Reaches c (some e) w t h here =
      (become-Traced locks owner i w _ t h (fails_to_ask i c here), phase-enter i idle t.now)
  tried-Reaches c none w t h here = locked-Reaches c (locks.try_lock c t.now.lock).0 w t h here refl

  with_conn-Reaches :
      (r : Result ℕ) (w : World L) (t : Trace L)
      → Traced locks owner i w t
      → t.now.phase i ≡ idle
      → ((c : ℕ) → r ≡ ok c → owner c ≡ i)
      → Reaches locks owner i w
          (with_conn
            (world_pool locks i answers)
            ctx
            key
            (task locks i answers)
            (acquire_in locks i answers r t)).1
  unfolding with_conn
  with_conn-Reaches (err e) w t h out own = (h, out)
  with_conn-Reaches (ok c) w t h out own =
      let after : Trace L = become (enter i (connected c) t.now) t in
      let (waited, still) =
        wait-Traced 1 w after
          (become-Traced locks owner i w _ t h (acquires i c out (own c refl))) in
      tried-Reaches c answers.ask_error w (wait locks i answers 1 after) waited
        (still ∙ phase-enter i (connected c) t.now)

  -- Whatever its calls answer, and whatever steps the other replicas take before each of them: every
  -- world that one `Run` of a replica goes through is one that the relation reaches, so that what
  -- holds of all of those holds of the program; the task runs only in worlds in which the replica
  -- stands where a granted lock has put it; and the replica is out of `Run` at the end.
  pub run-Reaches :
      (w : World L)
      → w.phase i ≡ idle
      → ((c : ℕ) → answers.acquired ≡ ok c → owner c ≡ i)
      → Reaches locks owner i w
          (run (world_pool locks i answers) ctx key (task locks i answers) (begin w)).1
  unfolding run
  run-Reaches w out own =
      let (waited, still) =
        wait-Traced 0 w (begin w) (record { now = start; past = tt; ran = tt }) in
      with_conn-Reaches answers.acquired w (wait locks i answers 0 (begin w)) waited (still ∙ out)
        own
