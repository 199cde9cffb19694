-- ===== src/Platform/Logger/Spelling.antt =====
-- The spellings of a level: white space and letter case.
use production_ready_url_sho.Common.{
  ℕ, ◌≡◌, ◌∙◌, refl, sym, ap, true, List, [], ◌∷◌, ◌++◌, All, arith, Bool-cases, inl, inr,
}
use production_ready_url_sho.Platform.Words.{
  lower_rune, to_lower, is_space, trim_left, trim_right, trim_space, before,
}
use production_ready_url_sho.Platform.Logger.{level_of}

abbrev pub Blank : List ℕ → Type 0
Blank s = All (λ n. is_space n ≡ true) s

trim_left-append : (s t : List ℕ) → Blank s → trim_left (s ++ t) ≡ trim_left t
unfolding trim_left
trim_left-append [] t h = refl
trim_left-append (n ∷ s) t (h, hs) = rw h (trim_left-append s t hs)

trim_left-Blank : (s : List ℕ) → Blank s → trim_left s ≡ []
unfolding trim_left
trim_left-Blank [] h = refl
trim_left-Blank (n ∷ s) (h, hs) = rw h (trim_left-Blank s hs)

trim_right-Blank : (s : List ℕ) → Blank s → trim_right s ≡ []
unfolding trim_right before
trim_right-Blank [] h = refl
trim_right-Blank (n ∷ s) (h, hs) = rw (trim_right-Blank s hs, h) refl

trim_right-append : (s t : List ℕ) → Blank t → trim_right (s ++ t) ≡ trim_right s
unfolding trim_right
trim_right-append [] t h = trim_right-Blank t h
trim_right-append (n ∷ s) t h = ap (before n) (trim_right-append s t h)

-- A trimmed beginning stays one with white space behind the text.
trim-append : (s t : List ℕ) → Blank t → trim_right (trim_left (s ++ t)) ≡ trim_right (trim_left s)
unfolding trim_left
trim-append [] t h = ap trim_right (trim_left-Blank t h)
trim-append (n ∷ s) t h = elim (Bool-cases (is_space n)) [
  | inl space ↦ rw space (trim-append s t h)
  | inr other ↦ rw other (trim_right-append (n ∷ s) t h)
]

trim_space-append :
    (left s right : List ℕ)
    → Blank left
    → Blank right
    → trim_space (left ++ (s ++ right)) ≡ trim_space s
unfolding trim_space
trim_space-append left s right l r =
    ap trim_right (trim_left-append left (s ++ right) l) ∙ trim-append s right r

-- Lower case neither makes nor removes white space.
is_space-lower_rune : (n : ℕ) → is_space (lower_rune n) ≡ is_space n
unfolding is_space lower_rune
is_space-lower_rune n = ground arith

trim_left-to_lower : (s : List ℕ) → to_lower (trim_left s) ≡ trim_left (to_lower s)
unfolding trim_left
trim_left-to_lower [] = refl
trim_left-to_lower (n ∷ s) = elim (Bool-cases (is_space n)) [
  | inl space ↦ rw (is_space-lower_rune n, space) (trim_left-to_lower s)
  | inr other ↦ rw (is_space-lower_rune n, other) refl
]

before-to_lower : (n : ℕ) (s : List ℕ) → to_lower (before n s) ≡ before (lower_rune n) (to_lower s)
unfolding before
before-to_lower n [] = elim (Bool-cases (is_space n)) [
  | inl space ↦ rw (is_space-lower_rune n, space) refl
  | inr other ↦ rw (is_space-lower_rune n, other) refl
]
before-to_lower n (m ∷ s) = refl

trim_right-to_lower : (s : List ℕ) → to_lower (trim_right s) ≡ trim_right (to_lower s)
unfolding trim_right
trim_right-to_lower [] = refl
trim_right-to_lower (n ∷ s) =
    before-to_lower n (trim_right s) ∙ ap (before (lower_rune n)) (trim_right-to_lower s)

trim_space-to_lower : (s : List ℕ) → to_lower (trim_space s) ≡ trim_space (to_lower s)
unfolding trim_space
trim_space-to_lower s = trim_right-to_lower (trim_left s) ∙ ap trim_right (trim_left-to_lower s)

-- The level that a text selects is that of any other spelling of it: white space around it does not
-- matter, and neither does the case of its letters.
pub level_of-spelling :
    (left s t right : List ℕ)
    → Blank left
    → Blank right
    → to_lower s ≡ to_lower t
    → level_of (left ++ (s ++ right)) ≡ level_of t
unfolding level_of
level_of-spelling left s t right l r e =
    let words : to_lower (trim_space (left ++ (s ++ right))) ≡ to_lower (trim_space t) =
      ap to_lower (trim_space-append left s right l r)
      ∙ trim_space-to_lower s
      ∙ ap trim_space e
      ∙ sym (trim_space-to_lower t) in
    rw words refl
