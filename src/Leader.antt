-- ===== src/Leader.antt =====
-- internal/platform/leader/locker.go: the gate that lets one replica at a time run a task. The
-- connection pool and Postgres's advisory locks are the parameter `LockPool`; a connection that was
-- acquired is a session, a number.
pub mod Sessions
pub mod Exclusion
pub mod Starvation
pub mod Adequacy
use production_ready_url_sho.Common.{ℕ, Bool, true, false, Option, none, some, ℤ}
use production_ready_url_sho.Failure.{GoError, wrapped, Result, ok, err}
use production_ready_url_sho.Context.{Ctx}

pub record LockPool (S : Type 0) : Type 0 where
  pub acquire : Ctx → S → Result ℕ × S
  pub try_advisory_lock : Ctx → (session : ℕ) (key : ℤ) → S → Result Bool × S
  -- `Exec` of the unlock with `context.Background`; its error is logged and dropped.
  pub advisory_unlock : (session : ℕ) (key : ℤ) → S → Option GoError × S
  pub release : (session : ℕ) → S → S

module _ {S : Type 0} (pool : LockPool S) (ctx : Ctx) (key : ℤ)
    (fn : Ctx → S → Option GoError × S) where
  -- From the answer of `pg_try_advisory_lock` on.
  unfoldable pub tried : ℕ → Result Bool × S → Option GoError × S
  tried session (err e, s) = (some (wrapped "try advisory lock" e), s)
  tried session (ok false, s) = (none, s)
  tried session (ok true, s) =
      let (e, s') = fn ctx s in (e, (pool.advisory_unlock session key s').1)

  unfoldable pub with_conn : Result ℕ × S → Option GoError × S
  unfolding tried
  with_conn (err e, s) = (some (wrapped "acquire lock conn" e), s)
  with_conn (ok session, s) =
      let (e, s') = tried session (pool.try_advisory_lock ctx session key s) in
      (e, pool.release session s')

  unfoldable pub run : S → Option GoError × S
  unfolding with_conn
  run s = with_conn (pool.acquire ctx s)
