-- ===== src/Common/Texts.antt =====
-- Texts by their characters.
use Prim.Native.Nat.{ℕ, zero, suc, ◌+◌}
use Prim.Native.Char.{Char, nul}
use Prim.Native.String.{String, [], ◌∷◌, ◌++◌}
use mathlib.Core.Path.{◌≡◌}
use native.Mathlib.Omega.{arith}
use text.Mathlib.TextLemmas.{nil-append, cons-append}

abbrev pub chars : String → ℕ
chars [] = 0
chars (c ∷ s) = suc (chars s)

-- The character at a position, in a text of characters of one byte each.
abbrev pub nth_char : String → ℕ → Char
nth_char [] i = nul
nth_char (c ∷ s) zero = c
nth_char (c ∷ s) (suc i) = nth_char s i

abbrev pub AllChars {κ} : (Char → Type κ) → String → Type κ
AllChars P [] = Unit
AllChars P (c ∷ s) = P c × AllChars P s

pub chars-append : (s t : String) → chars (s ++ t) ≡ chars s + chars t
chars-append [] t = rw nil-append (omega arith)
chars-append (c ∷ s) t = rw cons-append (omega (arith, chars-append s t))
