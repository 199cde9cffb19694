-- ===== src/Sql/Selecting.antt =====
-- The row that answers a lookup.
use production_ready_url_sho.Common.{
  String, ◌≡◌, ◌↔◌, true, false, Option, none, some, List, [], ◌∷◌, arith, eq_iff, Bool-cases, inl,
  inr, if◌then◌else◌,
}
use production_ready_url_sho.Model.{Url}
use production_ready_url_sho.Sql.{answers, is_live, has_live_key}

-- The first row that answers.
unfoldable pub find_live : String → List Url → Option Url
find_live key [] = none
find_live key (u ∷ us) = if answers key u then some u else find_live key us

-- A row that is found is live, has the key, and stands in the table.
pub find_live_sound :
    (key : String) (us : List Url) (u : Url)
    → find_live key us ≡ some u
    → (u.short_key ≡ key) × (is_live u ≡ true)
unfolding find_live
find_live_sound key [] u h = cc
find_live_sound key (v ∷ us) u h = elim (Bool-cases (answers key v)) [
  | inl yes_it ↦ (ground (arith, eq_iff v.short_key key), ground arith)
  | inr not_it ↦ find_live_sound key us u (ground arith)
]

-- Nothing is found exactly where the partial index does not hold the key.
pub find_live-none :
    (key : String) (us : List Url) → (find_live key us ≡ none) ↔ (has_live_key key us ≡ false)
unfolding find_live has_live_key
find_live-none key [] = ground arith
find_live-none key (u ∷ us) = ground (arith, find_live-none key us)
