-- ===== src/Sql/Constraints.antt =====
-- The primary key of `urls` and its partial unique index are an invariant of every statement.
use production_ready_url_sho.Common.{
  ℕ, String, ◌≡◌, ◌≢◌, true, false, List, [], ◌∷◌, map, All, arith, eq_iff,
}
use production_ready_url_sho.Model.{Url}
use production_ready_url_sho.Sql.{
  Command, insert_url, update_last_used, delete_unused, insert_request, Tables, is_live, has_id,
  has_live_key, as_inserted, insert_into_urls, touch, retire, execute,
}

-- Two rows that may stand in one table: other identifiers, and not one live key twice.
pub record Compatible (u v : Url) : Type 0 where
  pub ids : v.id ≢ u.id
  pub keys : is_live u ≡ true → is_live v ≡ true → v.short_key ≢ u.short_key

abbrev pub IsConsistent : List Url → Type 0
IsConsistent [] = Unit
IsConsistent (u ∷ us) = All (Compatible u) us × IsConsistent us

-- An update of rows that keeps identifiers and keys, and revives none.
pub record Keeps (f : Url → Url) : Type 0 where
  pub id : (u : Url) → (f u).id ≡ u.id
  pub key : (u : Url) → (f u).short_key ≡ u.short_key
  pub live : (u : Url) → is_live (f u) ≡ true → is_live u ≡ true

module _ (f : Url → Url) (k : Keeps f) where
  Compatible-map : (u v : Url) → Compatible u v → Compatible (f u) (f v)
  Compatible-map u v c = record {
    ids = λ e. c.ids (cc (k.id u, k.id v));
    keys = λ lu lv e. c.keys (k.live u lu) (k.live v lv) (cc (k.key u, k.key v));
  }

  All-map : (u : Url) (us : List Url) → All (Compatible u) us → All (Compatible (f u)) (map f us)
  All-map u [] h = tt
  All-map u (v ∷ us) (c, h) = (Compatible-map u v c, All-map u us h)

  IsConsistent-map : (us : List Url) → IsConsistent us → IsConsistent (map f us)
  IsConsistent-map [] h = tt
  IsConsistent-map (u ∷ us) (c, h) = (All-map u us c, IsConsistent-map us h)

touch-Keeps : (at : ℕ) (id : String) → Keeps (touch at id)
unfolding touch
touch-Keeps at id = record {
  id = λ u. ground arith;
  key = λ u. ground arith;
  live = λ u h. ground arith;
}

retire-Keeps : (at cutoff : ℕ) → Keeps (retire at cutoff)
unfolding retire
retire-Keeps at cutoff = record {
  id = λ u. ground arith;
  key = λ u. ground arith;
  live = λ u h. ground arith;
}

-- A row that passes the checks of the `INSERT` is compatible with every row of the table.
checks_sound :
    (u : Url) (us : List Url)
    → has_id u.id us ≡ false
    → has_live_key u.short_key us ≡ false
    → All (Compatible (as_inserted u)) us
unfolding has_id has_live_key
checks_sound u [] hi hk = tt
checks_sound u (v ∷ us) hi hk = (
  record {
    ids = λ e. ground (arith, eq_iff v.id u.id);
    keys = λ lu lv e. ground (arith, eq_iff v.short_key u.short_key);
  },
  checks_sound u us (ground arith) (ground arith),
)

insert-IsConsistent :
    (u : Url) (t : Tables) → IsConsistent t.urls → IsConsistent (insert_into_urls u t).1.urls
unfolding insert_into_urls
insert-IsConsistent u t h = ground (arith, checks_sound u t.urls)

-- If no two rows of `urls` share an identifier and no two live rows a short key, then the same
-- holds after any statement, whether it succeeds or violates a constraint.
pub execute-IsConsistent :
    (c : Command) (t : Tables) → IsConsistent t.urls → IsConsistent (execute c t).1.urls
unfolding execute
execute-IsConsistent (insert_url u) t h = insert-IsConsistent u t h
execute-IsConsistent (update_last_used at id) t h =
    IsConsistent-map (touch at id) (touch-Keeps at id) t.urls h
execute-IsConsistent (delete_unused at cutoff) t h =
    IsConsistent-map (retire at cutoff) (retire-Keeps at cutoff) t.urls h
execute-IsConsistent (insert_request r) t h = ground arith
