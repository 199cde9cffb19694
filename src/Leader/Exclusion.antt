-- ===== src/Leader/Exclusion.antt =====
-- Replicas that run `Run` at the same time, as steps on the locks that they share.
use production_ready_url_sho.Common.{
  ℕ, ◌≡◌, ◌≢◌, ◌∙◌, Bool, true, false, Option, some, eqb, eqb_iff, if◌then◌else◌, Bool-cases, inl,
  inr,
}

-- The advisory lock of one key: the session that holds it, if any.
pub record AdvisoryLock (L : Type 0) : Type 0 where
  pub try_lock : (session : ℕ) → L → Bool × L
  pub unlock : (session : ℕ) → L → L
  pub session_end : (session : ℕ) → L → L

-- What Postgres documents of session-level advisory locks.
pub record AdvisoryLaws {L : Type 0} (locks : AdvisoryLock L) : Type 0 where
  pub holder : L → Option ℕ
  -- A lock is granted only if no other session holds it, and then this session does.
  pub granted :
      (c : ℕ) (l : L) → (locks.try_lock c l).0 ≡ true → holder (locks.try_lock c l).1 ≡ some c
  pub granted_free : (c d : ℕ) (l : L) → (locks.try_lock c l).0 ≡ true → holder l ≡ some d → d ≡ c
  pub denied :
      (c : ℕ) (l : L) → (locks.try_lock c l).0 ≡ false → holder (locks.try_lock c l).1 ≡ holder l
  -- Neither an unlock nor an end of one session takes the lock from another.
  pub unlock_other :
      (c d : ℕ) (l : L) → d ≢ c → holder l ≡ some d → holder (locks.unlock c l) ≡ some d
  pub end_other :
      (c d : ℕ) (l : L) → d ≢ c → holder l ≡ some d → holder (locks.session_end c l) ≡ some d

-- Where the cron of a replica stands in `Run`, with its session.
pub data Phase : Type 0 where
  idle : Phase
  connected running finished : ℕ → Phase

pub record World (L : Type 0) : Type 0 where
  pub lock : L
  pub phase : ℕ → Phase

abbrev pub enter : {L : Type 0} → ℕ → Phase → World L → World L
enter i p w = record w { phase = λ j. if eqb j i then p else w.phase j }

module _ {L : Type 0} (locks : AdvisoryLock L) (owner : ℕ → ℕ) where
  -- The steps of `Run`, of any replica, in any order. A session belongs to the pool of one replica.
  pub data Step (w : World L) : World L → Type 0 where
    acquires : (i c : ℕ) → w.phase i ≡ idle → owner c ≡ i → Step w (enter i (connected c) w)
    gets_lock :
        (i c : ℕ)
        → w.phase i ≡ connected c
        → (locks.try_lock c w.lock).0 ≡ true
        → Step w (enter i (running c) (record w { lock = (locks.try_lock c w.lock).1 }))
    skips :
        (i c : ℕ)
        → w.phase i ≡ connected c
        → (locks.try_lock c w.lock).0 ≡ false
        → Step w (enter i idle (record w { lock = (locks.try_lock c w.lock).1 }))
    fails_to_ask : (i c : ℕ) → w.phase i ≡ connected c → Step w (enter i idle w)
    returns : (i c : ℕ) → w.phase i ≡ running c → Step w (enter i (finished c) w)
    unlocks :
        (i c : ℕ)
        → w.phase i ≡ finished c
        → Step w (enter i idle (record w { lock = locks.unlock c w.lock }))
    fails_to_unlock : (i c : ℕ) → w.phase i ≡ finished c → Step w (enter i idle w)
    -- The process ends, its task and all, and its session `c` with it.
    dies :
        (i c : ℕ)
        → owner c ≡ i
        → Step w (enter i idle (record w { lock = locks.session_end c w.lock }))

  pub data Reachable (w : World L) : World L → Type 0 where
    start : Reachable w w
    then_step : {v v' : World L} → Reachable w v → Step v v' → Reachable w v'

module _ {L : Type 0} (locks : AdvisoryLock L) (laws : AdvisoryLaws locks) (owner : ℕ → ℕ) where
  -- Whose session it is, and that a task runs, and ends, only under the lock.
  abbrev pub Fits : L → ℕ → Phase → Type 0
  Fits l i idle = Unit
  Fits l i (connected c) = owner c ≡ i
  Fits l i (running c) = (owner c ≡ i) × (laws.holder l ≡ some c)
  Fits l i (finished c) = (owner c ≡ i) × (laws.holder l ≡ some c)

  abbrev pub IsOrderly : World L → Type 0
  IsOrderly w = (i : ℕ) → Fits w.lock i (w.phase i)

  -- The lock is not taken from a session of a replica other than `i`.
  abbrev Keeps : ℕ → L → L → Type 0
  Keeps i l l' = (j d : ℕ) → j ≢ i → owner d ≡ j → laws.holder l ≡ some d → laws.holder l' ≡ some d

  Fits-Keeps : (i j : ℕ) (p : Phase) (l l' : L) → j ≢ i → Keeps i l l' → Fits l j p → Fits l' j p
  Fits-Keeps i j idle l l' other keeps h = tt
  Fits-Keeps i j (connected c) l l' other keeps h = h
  Fits-Keeps i j (running c) l l' other keeps h = (h.0, keeps j c other h.0 h.1)
  Fits-Keeps i j (finished c) l l' other keeps h = (h.0, keeps j c other h.0 h.1)

  -- A step of replica `i` to a phase, with the lock that it leaves.
  IsOrderly-enter :
      (i : ℕ) (p : Phase) (w : World L) (l : L)
      → IsOrderly w
      → Fits l i p
      → Keeps i w.lock l
      → IsOrderly (enter i p (record w { lock = l }))
  IsOrderly-enter i p w l h mine keeps j = elim (Bool-cases (eqb j i)) [
    | inl same ↦ rw same (rw ((eqb_iff j i).0 same) mine)
    | inr other ↦
        rw other
          (Fits-Keeps i j (w.phase j) w.lock l (λ e. cc ((eqb_iff j i).1 e, other)) keeps (h j))
  ]

  pub phase-Fits : (w : World L) (i : ℕ) (p : Phase) → IsOrderly w → w.phase i ≡ p → Fits w.lock i p
  phase-Fits w i p h e = rw (← e) (h i)

  -- Whom a lock is not taken from: a holder whose session is another replica's.
  pub apart : (i j c d : ℕ) → owner c ≡ i → owner d ≡ j → j ≢ i → d ≢ c
  apart i j c d p q other e = other (cc (p, q, e))

  pub IsOrderly-Step : (w w' : World L) → Step locks owner w w' → IsOrderly w → IsOrderly w'
  IsOrderly-Step w w' (acquires i c e own) h =
      IsOrderly-enter i (connected c) w w.lock h own (λ j d o p q. q)
  IsOrderly-Step w w' (gets_lock i c e got) h =
      let own = phase-Fits w i (connected c) h e in
      IsOrderly-enter i (running c) w (locks.try_lock c w.lock).1 h (own, laws.granted c w.lock got)
        (λ j d other p q. absurd (apart i j c d own p other (laws.granted_free c d w.lock got q)))
  IsOrderly-Step w w' (skips i c e none_got) h =
      IsOrderly-enter i idle w (locks.try_lock c w.lock).1 h tt
        (λ j d o p q. laws.denied c w.lock none_got ∙ q)
  IsOrderly-Step w w' (fails_to_ask i c e) h = IsOrderly-enter i idle w w.lock h tt (λ j d o p q. q)
  IsOrderly-Step w w' (returns i c e) h =
      IsOrderly-enter i (finished c) w w.lock h (phase-Fits w i (running c) h e) (λ j d o p q. q)
  IsOrderly-Step w w' (unlocks i c e) h =
      let own = (phase-Fits w i (finished c) h e).0 in
      IsOrderly-enter i idle w (locks.unlock c w.lock) h tt
        (λ j d other p q. laws.unlock_other c d w.lock (apart i j c d own p other) q)
  IsOrderly-Step w w' (fails_to_unlock i c e) h =
      IsOrderly-enter i idle w w.lock h tt (λ j d o p q. q)
  IsOrderly-Step w w' (dies i c own) h =
      IsOrderly-enter i idle w (locks.session_end c w.lock) h tt
        (λ j d other p q. laws.end_other c d w.lock (apart i j c d own p other) q)

  pub IsOrderly-Reachable :
      (w w' : World L) → Reachable locks owner w w' → IsOrderly w → IsOrderly w'
  IsOrderly-Reachable w w' start h = h
  IsOrderly-Reachable w w' (then_step {v} r s) h =
      IsOrderly-Step v w' s (IsOrderly-Reachable w v r h)

  -- No replica is in `Run` yet.
  abbrev pub IsQuiet : World L → Type 0
  IsQuiet w = (i : ℕ) → w.phase i ≡ idle

  -- From a state in which no replica is in `Run`, and where every session belongs to one replica:
  -- however the replicas interleave, skip, fail to unlock and die, two that run the task at the
  -- same time are one and the same, as long as a session does not end while its task goes on.
  pub mutual_exclusion :
      (w w' : World L) (i j c d : ℕ)
      → IsQuiet w
      → Reachable locks owner w w'
      → w'.phase i ≡ running c
      → w'.phase j ≡ running d
      → i ≡ j
  mutual_exclusion w w' i j c d quiet r here there =
      let h = IsOrderly-Reachable w w' r (λ k. rw (quiet k) tt) in
      let (own, held) = phase-Fits w' i (running c) h here in
      let (own', held') = phase-Fits w' j (running d) h there in cc (own, own', held, held')
