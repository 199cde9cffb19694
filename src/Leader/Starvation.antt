-- ===== src/Leader/Starvation.antt =====
-- What an unlock that failed does to the other replicas.
use production_ready_url_sho.Common.{
  ℕ, ◌≡◌, ◌≢◌, ◌∙◌, some, eqb, if◌then◌else◌, Bool-cases, inl, inr,
}
use production_ready_url_sho.Leader.Exclusion.{
  AdvisoryLock, AdvisoryLaws, Phase, idle, connected, running, finished, World, enter, Step,
  acquires, gets_lock, skips, fails_to_ask, returns, unlocks, fails_to_unlock, dies, Reachable,
  IsOrderly, Fits, phase-Fits, apart, IsOrderly-Step, IsOrderly-Reachable, IsQuiet,
}

module _ {L : Type 0} (locks : AdvisoryLock L) (owner : ℕ → ℕ) where
  -- The replica that takes a step.
  abbrev pub actor : {w w' : World L} → Step locks owner w w' → ℕ
  actor (acquires i c e own) = i
  actor (gets_lock i c e got) = i
  actor (skips i c e none_got) = i
  actor (fails_to_ask i c e) = i
  actor (returns i c e) = i
  actor (unlocks i c e) = i
  actor (fails_to_unlock i c e) = i
  actor (dies i c own) = i

  -- What the replicas other than one can reach.
  pub data Others (i : ℕ) (w : World L) : World L → Type 0 where
    others_start : Others i w w
    others_step :
        {v v' : World L} → Others i w v → (s : Step locks owner v v') → actor s ≢ i → Others i w v'

module _ {L : Type 0} (locks : AdvisoryLock L) (laws : AdvisoryLaws locks) (owner : ℕ → ℕ) where
  abbrev pub IsIdleOrWaiting : Phase → Type 0
  IsIdleOrWaiting idle = Unit
  IsIdleOrWaiting (connected c) = Unit
  IsIdleOrWaiting (running c) = ⊥
  IsIdleOrWaiting (finished c) = Unit

  -- One replica's session keeps the lock, and no other replica runs its task.
  record LockedOut (i c : ℕ) (w : World L) : Type 0 where
    orderly : IsOrderly locks laws owner w
    held : laws.holder w.lock ≡ some c
    out : (j : ℕ) → j ≢ i → IsIdleOrWaiting (w.phase j)

  -- Another replica enters a phase other than running, and leaves the holder.
  out-enter :
      (i k : ℕ) (p : Phase) (w : World L)
      → ((j : ℕ) → j ≢ i → IsIdleOrWaiting (w.phase j))
      → IsIdleOrWaiting p
      → (j : ℕ) → j ≢ i
      → IsIdleOrWaiting (if eqb j k then p else w.phase j)
  out-enter i k p w h q j other = elim (Bool-cases (eqb j k)) [
    | inl same ↦ rw same q
    | inr apart ↦ rw apart (h j other)
  ]

  held-Step :
      (i c : ℕ) (w w' : World L) (s : Step locks owner w w')
      → owner c ≡ i
      → actor locks owner s ≢ i
      → LockedOut i c w
      → (laws.holder w'.lock ≡ some c) × ((j : ℕ) → j ≢ i → IsIdleOrWaiting (w'.phase j))
  held-Step i c w w' (acquires k d e own) mine other h =
      (h.held, out-enter i k (connected d) w h.out tt)
  held-Step i c w w' (gets_lock k d e got) mine other h =
      let own : Fits locks laws owner w.lock k (connected d) =
        phase-Fits locks laws owner w k (connected d) h.orderly e in
      absurd (other (cc (mine, own, laws.granted_free d c w.lock got h.held)))
  held-Step i c w w' (skips k d e none_got) mine other h =
      (laws.denied d w.lock none_got ∙ h.held, out-enter i k idle w h.out tt)
  held-Step i c w w' (fails_to_ask k d e) mine other h = (h.held, out-enter i k idle w h.out tt)
  held-Step i c w w' (returns k d e) mine other h = (h.held, out-enter i k (finished d) w h.out tt)
  held-Step i c w w' (unlocks k d e) mine other h =
      let own : owner d ≡ k = (phase-Fits locks laws owner w k (finished d) h.orderly e).0 in
      (
        laws.unlock_other d c w.lock (λ x. other (cc (mine, own, x))) h.held,
        out-enter i k idle w h.out tt,
      )
  held-Step i c w w' (fails_to_unlock k d e) mine other h = (h.held, out-enter i k idle w h.out tt)
  held-Step i c w w' (dies k d own) mine other h = (
    laws.end_other d c w.lock (λ x. other (cc (mine, own, x))) h.held,
    out-enter i k idle w h.out tt,
  )

  LockedOut-Others :
      (i c : ℕ) (w w' : World L)
      → owner c ≡ i
      → LockedOut i c w
      → Others locks owner i w w'
      → LockedOut i c w'
  LockedOut-Others i c w w' mine h others_start = h
  LockedOut-Others i c w w' mine h (others_step {v} r s other) =
      let before = LockedOut-Others i c w v mine h r in
      let (held, out) = held-Step i c v w' s mine other before in
      record {
        orderly = IsOrderly-Step locks laws owner v w' s before.orderly;
        held = held;
        out = out;
      }

  -- Only the holder's replica runs.
  idle_or_waiting :
      (i c k : ℕ) (p : Phase) (l : L)
      → owner c ≡ i
      → laws.holder l ≡ some c
      → k ≢ i
      → Fits locks laws owner l k p
      → IsIdleOrWaiting p
  idle_or_waiting i c k idle l mine held other h = tt
  idle_or_waiting i c k (connected d) l mine held other h = tt
  idle_or_waiting i c k (running d) l mine held other h = absurd (other (cc (mine, held, h.0, h.1)))
  idle_or_waiting i c k (finished d) l mine held other h = tt

  -- Where the unlock of a replica fails and its session goes on, its connection is back in the pool
  -- with the lock: whatever the other replicas do from then on, none of them runs the task, until
  -- that replica acts again.
  pub failed_unlock_starves :
      (w₀ w w' : World L) (i c j d : ℕ)
      → IsQuiet locks laws owner w₀
      → Reachable locks owner w₀ w
      → w.phase i ≡ finished c
      → Others locks owner i (enter i idle w) w'
      → j ≢ i
      → w'.phase j ≢ running d
  failed_unlock_starves w₀ w w' i c j d quiet r last others other there =
      let orderly = IsOrderly-Reachable locks laws owner w₀ w r (λ k. rw (quiet k) tt) in
      let (mine, held) : (owner c ≡ i) × (laws.holder w.lock ≡ some c) =
        phase-Fits locks laws owner w i (finished c) orderly last in
      let out =
        λ (k : ℕ) (o : k ≢ i). idle_or_waiting i c k (w.phase k) w.lock mine held o (orderly k) in
      let after =
        IsOrderly-Step locks laws owner w (enter i idle w) (fails_to_unlock i c last) orderly in
      let begin : LockedOut i c (enter i idle w) = record {
        orderly = after;
        held = held;
        out = out-enter i i idle w out tt;
      } in
      let end = LockedOut-Others i c (enter i idle w) w' mine begin others in
      let idle_or : IsIdleOrWaiting (running d) = rw there at (end.out j other) in idle_or
