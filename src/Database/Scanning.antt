-- ===== src/Database/Scanning.antt =====
-- `Scan` of the row that a breakerDB returns.
use production_ready_url_sho.Common.{
  ℕ, ◌≡◌, ◌≤◌, ◌↔◌, ◌∙◌, refl, ap, map, Option, none, some, List, [], ◌∷◌, arith, true,
}
use production_ready_url_sho.Failure.{Result, ok, err, GoError}
use production_ready_url_sho.Context.{Ctx}
use production_ready_url_sho.Sql.{Query, Columns}
use production_ready_url_sho.Dbtx.{Dbtx, Rows, rows_to_row}
use production_ready_url_sho.Breaker.{new_breaker, BreakerSettings}
use production_ready_url_sho.Breaker.Gobreaker.{Gobreaker, closed, admitted, run_admitted}
use production_ready_url_sho.Breaker.Laws.{GobreakerLaws}
use production_ready_url_sho.Database.{breaker_query, breaker_db, query_row, scan, scan_items}

scan_items-ok_iff :
    (items : List (Result Columns)) (failure : Option GoError) (c : Columns)
    → (scan_items items failure ≡ ok c)
      ↔ ((rest : List (Result Columns)) × (items ≡ ok c ∷ rest) × (failure ≡ none))
unfolding scan_items
scan_items-ok_iff [] failure c = (λ h. cc, λ (rest, h, k). cc)
scan_items-ok_iff (err e ∷ items) failure c = (λ h. cc, λ (rest, h, k). cc)
scan_items-ok_iff (ok d ∷ items) none c = (λ h. (items, cc, refl), λ (rest, h, k). cc)
scan_items-ok_iff (ok d ∷ items) (some e) c = (λ h. cc, λ (rest, h, k). cc)

-- The columns are delivered exactly if there is a first row, it scans, and the rows report no error.
pub scan-ok_iff :
    (rows : Rows) (c : Columns)
    → (scan (rows_to_row rows) ≡ ok c)
      ↔ ((rest : List (Result Columns)) × (rows.items ≡ ok c ∷ rest) × (rows.failure ≡ none))
unfolding scan
scan-ok_iff rows c = scan_items-ok_iff rows.items rows.failure c

-- A read: the context and the query of a `QueryRow`.
abbrev pub Read : Type 0
Read = Ctx × Query

-- `QueryRow` and `Scan` of each read, one after the other, and what each `Scan` returns.
unfoldable pub reads :
    {C S : Type 0} → Gobreaker C → Dbtx S → List Read → C × S → List (Result Columns) × (C × S)
reads g db [] x = ([], x)
reads g db ((ctx, q) ∷ rs) x =
    let (row, x') = query_row (breaker_db g db) ctx q x in
    let (out, x'') = reads g db rs x' in (scan row ∷ out, x'')

-- The pool after the queries of some reads, without a breaker before it.
abbrev pub queried : {S : Type 0} → Dbtx S → List Read → S → S
queried db [] s = s
queried db ((ctx, q) ∷ rs) s = queried db rs (db.query ctx q s).1

module _ {C S : Type 0} (g : Gobreaker C) (laws : GobreakerLaws g) (cfg : BreakerSettings)
    (db : Dbtx S) where
  -- A breaker of the program that is closed, with so many failures in a row.
  record Closed (failures : ℕ) (c : C) : Type 0 where
    configured : g.settings c ≡ new_breaker cfg
    steady : laws.IsSteady c
    mode : laws.mode c ≡ closed
    few : (laws.counts c).consecutive_failures ≤ failures

  -- One read of rows that break off is reported as a success.
  read_lem :
      (ctx : Ctx) (q : Query) (c : C) (s : S) (e : GoError)
      → g.settings c ≡ new_breaker cfg
      → (g.admit c).0 ≡ admitted
      → (db.query ctx q s).0 ≡ ok (record { items = []; failure = some e })
      → (scan (query_row (breaker_db g db) ctx q (c, s)).0 ≡ err e)
        × ((query_row (breaker_db g db) ctx q (c, s)).1.0 ≡ g.report true (g.admit c).1)
        × ((query_row (breaker_db g db) ctx q (c, s)).1.1 ≡ (db.query ctx q s).1)
  unfolding scan query_row breaker_query run_admitted new_breaker
  read_lem ctx q c s e configured open_now failed = (ground arith, ground arith, ground arith)

  reported-Closed : (n : ℕ) (c : C) → Closed n c → Closed n (g.report true (g.admit c).1)
  reported-Closed n c h =
      let c' = (g.admit c).1 in
      let steady = laws.steady_admit c h.steady in
      let counted = laws.success_counted c' steady (laws.closed_stays c h.steady h.mode) in
      record {
        configured = laws.settings_report true c' ∙ laws.settings_admit c ∙ h.configured;
        steady = laws.steady_report true c' steady;
        mode = counted.0;
        few = rw counted.1 (omega arith);
      }

  reads-Closed :
      (rs : List Read) (n : ℕ) (c : C) (s : S) (e : GoError)
      → ((ctx : Ctx) (q : Query) (t : S)
          → (db.query ctx q t).0 ≡ ok (record { items = []; failure = some e }))
      → Closed n c
      → ((reads g db rs (c, s)).0 ≡ map (λ r. err e) rs)
        × Closed n (reads g db rs (c, s)).1.0
        × ((reads g db rs (c, s)).1.1 ≡ queried db rs s)
  unfolding reads
  reads-Closed [] n c s e broken h = (refl, h, refl)
  reads-Closed ((ctx, q) ∷ rs) n c s e broken h =
      let (failed, reported, reached) =
        read_lem ctx q c s e h.configured (laws.closed_admits c h.mode) (broken ctx q s) in
      let (row, (c', s')) = query_row (breaker_db g db) ctx q (c, s) in
      let after : Closed n c' = rw reported (reported-Closed n c h) in
      let (out, still, at_end) = reads-Closed rs n c' s' e broken after in
      (
        ap (λ r. r ∷ (reads g db rs (c', s')).0) failed ∙ ap (λ out. err e ∷ out) out,
        still,
        at_end ∙ ap (queried db rs) reached,
      )

  -- Rows that break off never open a breaker: over a pool whose every `Query` returns rows without any
  -- item but with an error, whichever, and from a breaker of the program that is closed, however many
  -- reads by `QueryRow` follow and whatever the threshold, each reaches the pool, so that its `Scan`
  -- returns the pool's error, the breaker is closed after them, and its count of failures in a row
  -- has not risen, while neither its interval nor its timeout runs out.
  pub failing_scans_never_open :
      (rs : List Read) (c : C) (s : S) (e : GoError)
      → g.settings c ≡ new_breaker cfg
      → laws.IsSteady c
      → laws.mode c ≡ closed
      → ((ctx : Ctx) (q : Query) (t : S)
          → (db.query ctx q t).0 ≡ ok (record { items = []; failure = some e }))
      → let (out, (c', s')) = reads g db rs (c, s) in
        (out ≡ map (λ r. err e) rs)
        × (laws.mode c' ≡ closed)
        × ((laws.counts c').consecutive_failures ≤ (laws.counts c).consecutive_failures)
        × (s' ≡ queried db rs s)
  failing_scans_never_open rs c s e configured steady mode broken =
      let (out, h, reached) =
        reads-Closed rs (laws.counts c).consecutive_failures c s e broken
          (record { configured = configured; steady = steady; mode = mode; few = omega arith }) in
      (out, h.mode, h.few, reached)
