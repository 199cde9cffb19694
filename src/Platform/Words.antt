-- ===== src/Platform/Words.antt =====
-- Go's `strings.ToLower` and `strings.TrimSpace`, on texts as lists of runes. A letter whose lower
-- case is outside ASCII is left alone: no text that the program compares with has one.
use Prim.Native.Char.{code}
use production_ready_url_sho.Common.{
  ℕ, ◌+◌, String, Bool, true, false, ◌&&◌, ◌||◌, List, [], ◌∷◌, map, eqb, leb, if◌then◌else◌,
}

abbrev pub runes : String → List ℕ
runes String.[] = []
runes (String.◌∷◌ c s) = code c ∷ runes s

-- The two runes outside ASCII are the dotted capital I and the Kelvin sign.
unfoldable pub lower_rune : ℕ → ℕ
lower_rune n =
    if leb 65 n && leb n 90
    then n + 32
    else if eqb n 304
    then 105
    else if eqb n 8490
    then 107
    else n

abbrev pub to_lower : List ℕ → List ℕ
to_lower s = map lower_rune s

-- `unicode.IsSpace`
unfoldable pub is_space : ℕ → Bool
is_space n =
    (leb 9 n && leb n 13)
    || eqb n 32
    || eqb n 133
    || eqb n 160
    || eqb n 5760
    || (leb 8192 n && leb n 8202)
    || eqb n 8232
    || eqb n 8233
    || eqb n 8239
    || eqb n 8287
    || eqb n 12288

unfoldable pub trim_left : List ℕ → List ℕ
trim_left [] = []
trim_left (n ∷ s) = let rest = trim_left s in if is_space n then rest else n ∷ s

-- A rune before a text that has been trimmed on its right.
unfoldable pub before : ℕ → List ℕ → List ℕ
before n [] = if is_space n then [] else n ∷ []
before n (m ∷ s) = n ∷ m ∷ s

unfoldable pub trim_right : List ℕ → List ℕ
unfolding before
trim_right [] = []
trim_right (n ∷ s) = before n (trim_right s)

unfoldable pub trim_space : List ℕ → List ℕ
unfolding trim_left trim_right
trim_space s = trim_right (trim_left s)

unfoldable pub same : List ℕ → List ℕ → Bool
same [] [] = true
same [] (m ∷ t) = false
same (n ∷ s) [] = false
same (n ∷ s) (m ∷ t) = eqb n m && same s t
