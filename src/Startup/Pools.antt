-- ===== src/Startup/Pools.antt =====
-- Which pools are open after the start of the database layer.
use production_ready_url_sho.Common.{
  ℕ, ◌≡◌, ◌⊎◌, inl, inr, ◌∙◌, refl, ap, String, Bool, true, false, eqb, eqb_iff, ◌||◌, sym,
  if◌then◌else◌, arith, Option, none, some, ◌==◌, Bool-cases,
}
use production_ready_url_sho.Failure.{GoError, Result, ok, err}
use production_ready_url_sho.Context.{Ctx}
use production_ready_url_sho.Breaker.{BreakerSettings}
use production_ready_url_sho.Breaker.Gobreaker.{Gobreaker}
use production_ready_url_sho.Startup.{
  Pgxpool, Opened, no_pool, pool_and, Started, pinged, configured, new_pool, with_replica,
  with_primary, new_router, cleanup,
}

-- `is_open` says which pools are open. A pool that opens was not open before; `Close` closes its own
-- pool alone, and does nothing to one that is closed.
pub record PoolBooks {S : Type 0} (pgx : Pgxpool S) : Type 0 where
  pub is_open : S → ℕ → Bool
  pub fresh :
      (ctx : Ctx) (dsn : String) (s : S) (p : ℕ)
      → (pgx.new_with_config ctx dsn s).0 ≡ ok p
      → is_open s p ≡ false
  pub opened :
      (ctx : Ctx) (dsn : String) (s : S) (p q : ℕ)
      → (pgx.new_with_config ctx dsn s).0 ≡ ok p
      → is_open (pgx.new_with_config ctx dsn s).1 q ≡ (eqb q p || is_open s q)
  pub not_opened :
      (ctx : Ctx) (dsn : String) (s : S) (e : GoError) (q : ℕ)
      → (pgx.new_with_config ctx dsn s).0 ≡ err e
      → is_open (pgx.new_with_config ctx dsn s).1 q ≡ is_open s q
  pub ping_keeps :
      (ctx : Ctx) (p : ℕ) (s : S) (q : ℕ) → is_open (pgx.ping ctx p s).1 q ≡ is_open s q
  pub closes :
      (p : ℕ) (s : S) (q : ℕ) → is_open (pgx.close p s) q ≡ (if eqb q p then false else is_open s q)

-- The pools that are open with one more.
abbrev pub with_pool : ℕ → (ℕ → Bool) → ℕ → Bool
with_pool p f q = eqb q p || f q

abbrev without : ℕ → (ℕ → Bool) → ℕ → Bool
without p f q = if eqb q p then false else f q

without-with_pool : (p : ℕ) (f : ℕ → Bool) (q : ℕ) → f p ≡ false → without p (with_pool p f) q ≡ f q
without-with_pool p f q fresh = elim (Bool-cases (eqb q p)) [
  | inl same ↦ rw same (sym (ap f ((eqb_iff q p).0 same) ∙ fresh))
  | inr other ↦ rw other refl
]

either_false : (a b : Bool) → (a || b) ≡ false → (a ≡ false) × (b ≡ false)
either_false true b h = cc
either_false false b h = (refl, h)

-- Closing a pool below another.
without_below :
    (p r : ℕ) (f : ℕ → Bool) (q : ℕ)
    → f p ≡ false
    → eqb p r ≡ false
    → without p (with_pool r (with_pool p f)) q ≡ with_pool r f q
without_below p r f q fresh apart = elim (Bool-cases (eqb q p)) [
  | inl same ↦
      let here = (eqb_iff q p).0 same in
      let gone : with_pool r f q ≡ false = ap (with_pool r f) here ∙ rw apart fresh in
      rw same (sym gone)
  | inr other ↦ rw other refl
]

eqb_swap : (a b : ℕ) → eqb a b ≡ false → eqb b a ≡ false
eqb_swap a b h = ground arith

module _ {S : Type 0} (pgx : Pgxpool S) (books : PoolBooks pgx) (ctx : Ctx) where
  -- What a `NewPool` did, where the pools in `f` were open.
  abbrev Made : (ℕ → Bool) → Opened → S → Type 0
  Made f (no_pool e) s = (q : ℕ) → books.is_open s q ≡ f q
  Made f (pool_and p e) s = (f p ≡ false) × ((q : ℕ) → books.is_open s q ≡ with_pool p f q)

  Made-same :
      (f g : ℕ → Bool) (o : Opened) (s : S) → ((q : ℕ) → f q ≡ g q) → Made f o s → Made g o s
  Made-same f g (no_pool e) s same h = λ q. h q ∙ same q
  Made-same f g (pool_and p e) s same h =
      (sym (same p) ∙ h.0, λ q. h.1 q ∙ ap (λ b. eqb q p || b) (same q))

  pinged-Made :
      (f : ℕ → Bool) (r : Result ℕ) (s : S)
      → ((p : ℕ) → r ≡ ok p → f p ≡ false)
      → ((p q : ℕ) → r ≡ ok p → books.is_open s q ≡ with_pool p f q)
      → ((e : GoError) (q : ℕ) → r ≡ err e → books.is_open s q ≡ f q)
      → let (o, s') = pinged pgx ctx (r, s) in Made f o s'
  unfolding pinged
  pinged-Made f (err e) s fresh good bad = λ q. bad e q refl
  pinged-Made f (ok p) s fresh good bad =
      (fresh p refl, λ q. books.ping_keeps ctx p s q ∙ good p q refl)

  configured-Made :
      (refused : Option GoError) (dsn : String) (s : S)
      → let (o, s') = configured pgx ctx refused dsn s in Made (books.is_open s) o s'
  unfolding configured
  configured-Made none dsn s =
      pinged-Made (books.is_open s) (pgx.new_with_config ctx dsn s).0
        (pgx.new_with_config ctx dsn s).1 (books.fresh ctx dsn s) (books.opened ctx dsn s)
        (books.not_opened ctx dsn s)
  configured-Made (some e) dsn s = λ q. refl

  new_pool-Made :
      (dsn : String) (s : S) → let (o, s') = new_pool pgx ctx dsn s in Made (books.is_open s) o s'
  unfolding new_pool
  new_pool-Made dsn s = configured-Made (pgx.parse_config dsn) dsn s

-- The pools that are open with those of a router.
abbrev pub with_replica_pool : {C : Type 0} → Option (C × ℕ) → (ℕ → Bool) → ℕ → Bool
with_replica_pool none f = f
with_replica_pool (some (c, r)) f = with_pool r f

module _ {C S : Type 0} (g : Gobreaker C) (pgx : Pgxpool S) (books : PoolBooks pgx) (ctx : Ctx)
    (primary_settings replica_settings : BreakerSettings) where
  -- In the state, those pools are open and no others.
  abbrev pub Holds : S → (ℕ → Bool) → Type 0
  Holds s f = (q : ℕ) → books.is_open s q ≡ f q

  -- What a start did to the pools, of which those in `f` were open, by what `NewPool` made of the
  -- primary and by what the start returned.
  abbrev pub Ledger : (ℕ → Bool) → Opened → Result (Started C) × S → Type 0
  Ledger f (pool_and p none) (ok r, s) =
      (r.primary.1 ≡ p)
      × (f p ≡ false)
      × Holds s (with_replica_pool r.replica (with_pool p f))
      × Holds (cleanup pgx r s) f
  Ledger f (pool_and p (some e')) (ok r, s) = ⊥
  Ledger f (no_pool e') (ok r, s) = ⊥
  Ledger f (no_pool e') (err e, s) = (e ≡ e') × Holds s f
  Ledger f (pool_and p (some e')) (err e, s) = (e ≡ e') × Holds s (with_pool p f)
  Ledger f (pool_and p none) (err e, s) =
      Holds s f ⊎ ((r : ℕ) × (eqb p r ≡ false) × Holds s (with_pool r f))

  -- After the primary's pool is closed.
  closed_below :
      (p r : ℕ) (f : ℕ → Bool) (s : S)
      → f p ≡ false
      → eqb p r ≡ false
      → Holds s (with_pool r (with_pool p f))
      → Holds (pgx.close p s) (with_pool r f)
  closed_below p r f s fresh apart h q =
      books.closes p s q
      ∙ ap (λ b. if eqb q p then false else b) (h q)
      ∙ without_below p r f q fresh apart

  closed_last :
      (p : ℕ) (f : ℕ → Bool) (s : S)
      → f p ≡ false
      → Holds s (with_pool p f)
      → Holds (pgx.close p s) f
  closed_last p f s fresh h q =
      books.closes p s q
      ∙ ap (λ b. if eqb q p then false else b) (h q)
      ∙ without-with_pool p f q fresh

  with_replica-Ledger :
      (p : ℕ) (f : ℕ → Bool) (o : Opened) (s : S)
      → f p ≡ false
      → Made pgx books ctx (with_pool p f) o s
      → Ledger f
          (pool_and p none)
          (with_replica g pgx ctx primary_settings replica_settings p (o, s))
  unfolding with_replica cleanup
  with_replica-Ledger p f (no_pool e) s fresh h = inl (closed_last p f s fresh h)
  with_replica-Ledger p f (pool_and r (some e)) s fresh (new, h) =
      let apart = eqb_swap r p (either_false (eqb r p) (f r) new).0 in
      inr (r, apart, closed_below p r f s fresh apart h)
  with_replica-Ledger p f (pool_and r none) s fresh (new, h) =
      let (other, unused) = either_false (eqb r p) (f r) new in
      let below = closed_below p r f s fresh (eqb_swap r p other) h in
      (refl, fresh, h, closed_last r f (pgx.close p s) unused below)

  with_primary-Ledger :
      (replica_dsn : String) (f : ℕ → Bool) (o : Opened) (s : S)
      → Made pgx books ctx f o s
      → Ledger f o (with_primary g pgx ctx primary_settings replica_settings replica_dsn (o, s))
  unfolding with_primary cleanup
  with_primary-Ledger replica_dsn f (no_pool e) s h = (refl, h)
  with_primary-Ledger replica_dsn f (pool_and p (some e)) s (fresh, h) = (refl, h)
  with_primary-Ledger replica_dsn f (pool_and p none) s (fresh, h) =
      elim (Bool-cases (replica_dsn == "")) [
        | inl alone ↦ rw alone (refl, fresh, h, closed_last p f s fresh h)
        | inr two ↦
            let x = new_pool pgx ctx replica_dsn s in
            rw two (
              with_replica-Ledger p f x.0 x.1 fresh (
                Made-same pgx books ctx (books.is_open s) (with_pool p f) x.0 x.1 h
                  (new_pool-Made pgx books ctx replica_dsn s)))
      ]

  -- Which pools a start of the database layer leaves open. With a router, the primary's pool, which
  -- was not open before, the replica's if there is one, and those that were open before; the router's
  -- cleanup leaves exactly those that were open before. With an error: if the primary's pool could not
  -- be opened, that is the error, and the same pools are open as before; if it opened and its first
  -- ping failed, that is the error, and the pool stays open; if the replica failed, the primary's pool
  -- is closed, and at most one other pool stays open.
  pub new_router-Ledger :
      (primary_dsn replica_dsn : String) (s : S)
      → Ledger
          (books.is_open s)
          (new_pool pgx ctx primary_dsn s).0
          (new_router g pgx ctx primary_settings replica_settings primary_dsn replica_dsn s)
  unfolding new_router
  new_router-Ledger primary_dsn replica_dsn s =
      let x = new_pool pgx ctx primary_dsn s in
      with_primary-Ledger replica_dsn (books.is_open s) x.0 x.1
        (new_pool-Made pgx books ctx primary_dsn s)
