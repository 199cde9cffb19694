-- ===== src/Cron/Ticks.antt =====
-- What the cron's loop does over its life.
use production_ready_url_sho.Common.{
  ℕ, zero, suc, ◌<◌, ◌≡◌, ◌∙◌, refl, Option, some, List, [], ◌∷◌, pos, arith,
}
use production_ready_url_sho.Failure.{GoError}
use production_ready_url_sho.Context.{Ctx}
use production_ready_url_sho.Leader.{LockPool}
use production_ready_url_sho.Leader.Sessions.{Accounting, connections_returned}
use production_ready_url_sho.Cron.{Event, tick, done, cleanup_lock_key, on_tick, loop, start}

module _ {S : Type 0} (pool : LockPool S) (books : Accounting pool)
    (run_cleanup : Ctx → (now later : ℕ) → S → Option GoError × S) (ctx : Ctx) where
  loop-out :
      (events : List Event) (s : S)
      → ((c : Ctx) (now later : ℕ) (s : S) → books.out (run_cleanup c now later s).1 ≡ books.out s)
      → books.out (loop pool run_cleanup ctx events s) ≡ books.out s
  unfolding loop on_tick
  loop-out [] s h = refl
  loop-out (done ∷ events) s h = refl
  loop-out (tick now later ∷ events) s h =
      loop-out events (on_tick pool run_cleanup ctx now later s) h
      ∙ connections_returned pool books ctx cleanup_lock_key (λ c. run_cleanup c now later) s
          (h ctx now later)

  -- With a positive interval the cron starts, and over any number of ticks, whatever fails in them,
  -- it leaks no connection, provided a cleanup leaks none.
  pub cron_leaks_none :
      (interval : ℕ) (events : List Event) (s : S)
      → 0 < interval
      → ((c : Ctx) (now later : ℕ) (s : S) → books.out (run_cleanup c now later s).1 ≡ books.out s)
      → (s' : S) × (start pool run_cleanup ctx (pos interval) events s ≡ some s')
        × (books.out s' ≡ books.out s)
  unfolding start
  cron_leaks_none zero events s positive h = absurd (omega (arith, positive))
  cron_leaks_none (suc ns) events s positive h =
      (loop pool run_cleanup ctx events s, refl, loop-out events s h)
