-- ===== src/Repository/Postgres.antt =====
-- What a repository relies on of the database behind a `Dbtx` or a `Router`, as named laws.
use production_ready_url_sho.Common.{ℕ, ◌≡◌, none, map}
use production_ready_url_sho.Failure.{GoError, Result, ok, err}
use production_ready_url_sho.Context.{Ctx}
use production_ready_url_sho.Sql.{Command, execute, Query, select, Tables}
use production_ready_url_sho.Dbtx.{Rows, Router}

-- The rows of a statement that ran to its end.
abbrev pub delivered : Query → Tables → Rows
delivered q t = record { items = map ok (select q t); failure = none }

-- A command that ran, reporting its own result; or a failed call, whose command may or may not
-- have been executed.
pub data Exec (t : Tables) (cmd : Command) (r : Result ℕ) (t' : Tables) : Type 0 where
  ran : r ≡ (execute cmd t).0 → t' ≡ (execute cmd t).1 → Exec t cmd r t'
  refused : (e : GoError) → r ≡ err e → t' ≡ t → Exec t cmd r t'
  lost : (e : GoError) → r ≡ err e → t' ≡ (execute cmd t).1 → Exec t cmd r t'

-- `IsCalm` says that the calls that are looked at do not fail.
pub record RouterLaws {S : Type 0} (router : Router S) : Type 1 where
  pub tables : S → Tables
  pub IsCalm : S → Type 0
  -- Any write, in fair weather and foul.
  pub exec_honest :
      (ctx : Ctx) (cmd : Command) (s : S)
      → Exec
          (tables s)
          cmd
          (router.writer.exec ctx cmd s).0
          (tables (router.writer.exec ctx cmd s).1)
  -- Any read leaves the primary's tables alone.
  pub read_pure :
      (ctx : Ctx) (q : Query) (s : S)
      → let (side, s') = router.reader s in tables (side.query ctx q s').1 ≡ tables s
  pub exec_calm :
      (ctx : Ctx) (cmd : Command) (s : S)
      → IsCalm s
      → ((router.writer.exec ctx cmd s).0 ≡ (execute cmd (tables s)).0)
        × (tables (router.writer.exec ctx cmd s).1 ≡ (execute cmd (tables s)).1)
        × IsCalm (router.writer.exec ctx cmd s).1
  pub read_calm :
      (ctx : Ctx) (q : Query) (s : S)
      → IsCalm s
      → let (side, s') = router.reader s in
        ((side.query ctx q s').0 ≡ ok (delivered q (tables s))) × IsCalm (side.query ctx q s').1
