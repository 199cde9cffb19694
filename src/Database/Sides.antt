-- ===== src/Database/Sides.antt =====
-- Which pool a read and a write reach.
use production_ready_url_sho.Common.{◌≡◌, ◌⊎◌, refl, Option, none, some, arith}
use production_ready_url_sho.Failure.{Result}
use production_ready_url_sho.Context.{Ctx}
use production_ready_url_sho.Sql.{Command, Query}
use production_ready_url_sho.Dbtx.{Dbtx, Rows}
use production_ready_url_sho.Breaker.Gobreaker.{Gobreaker, opened}
use production_ready_url_sho.Database.{breaker_query, Pools, primary_db, reader, on_primary}

-- The pool behind the replica's breaker.
abbrev pub replica_pool {ℓ} : {C : Type 0} {S : Type ℓ} → Option (C × S) → Option S
replica_pool none = none
replica_pool (some (c, s)) = some s

module _ {C S : Type 0} (g : Gobreaker C) (db : Dbtx S) where
  -- One read: ask the router for a reader and run a query on it.
  abbrev pub read : Ctx → Query → Pools C S → Result Rows × Pools C S
  read ctx q p = let (side, p') = reader g db p in side.query ctx q p'

  -- A write reaches the primary alone, whatever the breakers say.
  pub write_primary :
      (ctx : Ctx) (cmd : Command) (p : Pools C S)
      → ((primary_db g db).exec ctx cmd p).1.replica ≡ p.replica
  unfolding primary_db on_primary
  write_primary ctx cmd p = refl

  -- A read reaches one pool: either the primary's state is untouched, or the replica's pool is.
  pub read_one_side :
      (ctx : Ctx) (q : Query) (p : Pools C S)
      → ((read ctx q p).1.primary ≡ p.primary)
        ⊎ (replica_pool (read ctx q p).1.replica ≡ replica_pool p.replica)
  unfolding reader
  read_one_side ctx q p = ground arith

  -- With no replica, or with a replica whose breaker is open, a read is the same query on the
  -- primary's breakerDB, with its result, and the replica's pool is not reached.
  pub read_fallback :
      (ctx : Ctx) (q : Query) (p : Pools C S)
      → (p.replica ≡ none)
        ⊎ ((c : C) × (s : S) × (p.replica ≡ some (c, s)) × ((g.state c).0 ≡ opened))
      → ((read ctx q p).0 ≡ (breaker_query g db ctx q p.primary).0)
        × ((read ctx q p).1.primary ≡ (breaker_query g db ctx q p.primary).1)
        × (replica_pool (read ctx q p).1.replica ≡ replica_pool p.replica)
  unfolding reader primary_db on_primary
  read_fallback ctx q p h = (ground arith, ground arith, ground arith)
