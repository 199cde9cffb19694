-- ===== src/Cron.antt =====
-- internal/cron/cleanup_cron.go: the loop that runs the cleanup on every tick. What `select` finds
-- ready, one after the other, is a list of events; the process ends where the list does.
pub mod Ticks
pub mod Cleaning
use production_ready_url_sho.Common.{
  ℕ, zero, suc, Option, none, some, List, [], ◌∷◌, ℤ, pos, negsuc,
}
use production_ready_url_sho.Failure.{GoError}
use production_ready_url_sho.Context.{Ctx}
use production_ready_url_sho.Leader
use production_ready_url_sho.Leader.{LockPool}

abbrev pub cleanup_lock_key : ℤ
cleanup_lock_key = pos 213_214_793_941_214

pub data Event : Type 0 where
  -- A tick, at which the clock shows `now` and the statement of the cleanup runs at `later`.
  tick : (now later : ℕ) → Event
  done : Event

module _ {S : Type 0} (pool : LockPool S)
    (run_cleanup : Ctx → (now later : ℕ) → S → Option GoError × S) (ctx : Ctx) where
  -- One tick: the error of `Run` is logged and dropped.
  unfoldable pub on_tick : (now later : ℕ) → S → S
  on_tick now later s = (Leader.run pool ctx cleanup_lock_key (λ c. run_cleanup c now later) s).1

  -- The loop of `Start`, which returns when the context is done.
  unfoldable pub loop : List Event → S → S
  unfolding on_tick
  loop [] s = s
  loop (done ∷ events) s = s
  loop (tick now later ∷ events) s = loop events (on_tick now later s)

  -- `time.NewTicker` panics on an interval that is not positive: `none`.
  unfoldable pub start : (clean_up_interval : ℤ) → List Event → S → Option S
  unfolding loop
  start (pos zero) events s = none
  start (pos (suc ns)) events s = some (loop events s)
  start (negsuc n) events s = none
