-- ===== src/Leader/Sessions.antt =====
-- What `Run` does with its connection and its task, in one process.
use production_ready_url_sho.Common.{ℕ, suc, ◌≡◌, ◌∙◌, refl, Bool, true, false, Option, ℤ}
use production_ready_url_sho.Failure.{GoError, Result, ok, err}
use production_ready_url_sho.Context.{Ctx}
use production_ready_url_sho.Leader.{LockPool, tried, with_conn, run}

-- `out` is the number of connections that are checked out.
pub record Accounting {S : Type 0} (pool : LockPool S) : Type 0 where
  pub out : S → ℕ
  pub acquire_ok :
      (ctx : Ctx) (s : S) (c : ℕ)
      → (pool.acquire ctx s).0 ≡ ok c
      → out (pool.acquire ctx s).1 ≡ suc (out s)
  pub acquire_err :
      (ctx : Ctx) (s : S) (e : GoError)
      → (pool.acquire ctx s).0 ≡ err e
      → out (pool.acquire ctx s).1 ≡ out s
  pub try_keeps :
      (ctx : Ctx) (c : ℕ) (key : ℤ) (s : S) → out (pool.try_advisory_lock ctx c key s).1 ≡ out s
  pub unlock_keeps : (c : ℕ) (key : ℤ) (s : S) → out (pool.advisory_unlock c key s).1 ≡ out s
  pub release_returns : (c n : ℕ) (s : S) → out s ≡ suc n → out (pool.release c s) ≡ n

module _ {S : Type 0} (pool : LockPool S) (books : Accounting pool) (ctx : Ctx) (key : ℤ)
    (fn : Ctx → S → Option GoError × S) where
  tried-out :
      (session : ℕ) (x : Result Bool × S)
      → ((s : S) → books.out (fn ctx s).1 ≡ books.out s)
      → books.out (tried pool ctx key fn session x).1 ≡ books.out x.1
  unfolding tried
  tried-out session (err e, s) h = refl
  tried-out session (ok false, s) h = refl
  tried-out session (ok true, s) h = books.unlock_keeps session key (fn ctx s).1 ∙ h s

  with_conn-out :
      (r : Result ℕ) (s : S) (n : ℕ)
      → ((s : S) → books.out (fn ctx s).1 ≡ books.out s)
      → ((c : ℕ) → r ≡ ok c → books.out s ≡ suc n)
      → ((e : GoError) → r ≡ err e → books.out s ≡ n)
      → books.out (with_conn pool ctx key fn (r, s)).1 ≡ n
  unfolding with_conn
  with_conn-out (err e) s n h good bad = bad e refl
  with_conn-out (ok c) s n h good bad =
      let x = pool.try_advisory_lock ctx c key s in
      books.release_returns c n (tried pool ctx key fn c x).1
        (tried-out c x h ∙ books.try_keeps ctx c key s ∙ good c refl)

  -- However `Run` ends, no connection stays checked out: a connection that was acquired is released
  -- when the lock is held elsewhere, when asking for it fails, when the task fails, and when the
  -- unlock fails, provided the task returns its own connections.
  pub connections_returned :
      (s : S)
      → ((s : S) → books.out (fn ctx s).1 ≡ books.out s)
      → books.out (run pool ctx key fn s).1 ≡ books.out s
  unfolding run
  connections_returned s h =
      with_conn-out (pool.acquire ctx s).0 (pool.acquire ctx s).1 (books.out s) h
        (books.acquire_ok ctx s) (books.acquire_err ctx s)
