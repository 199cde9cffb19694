-- ===== src/Keygen/Numerals.antt =====
-- Reading back what `itoa` writes.
use Prim.Native.Char.{code}
use Prim.Native.String.{[], ◌∷◌}
use native.Mathlib.Nat.{div-add-mod, mod-lt}
use production_ready_url_sho.Common.{
  ℕ, zero, suc, ◌+◌, ◌-◌, ◌*◌, ◌/◌, ◌%◌, ◌<◌, ◌≡◌, ◌∙◌, refl, sym, ap, String, ltb, eqb, eqb_iff,
  all_to, all_to_lem, Bool, true, nth_char, arith, Bool-cases, inl, inr,
}
use production_ready_url_sho.Keygen.Decimal.{itoa_from, itoa}

-- The number that a text of digits adds to, behind one that is read already.
unfoldable pub read_from : ℕ → String → ℕ
read_from acc [] = acc
read_from acc (c ∷ s) = read_from (acc * 10 + (code c - 48)) s

-- Each digit is written as the character that stands for it.
abbrev digit_right : ℕ → Bool
digit_right i = eqb (code (nth_char "0123456789" i) - 48) i

digit_table : all_to digit_right 9 ≡ true
digit_table = refl

digit_code : (i : ℕ) → i < 10 → code (nth_char "0123456789" i) - 48 ≡ i
digit_code i h = (eqb_iff _ i).0 (all_to_lem digit_right 9 i (omega arith) digit_table)

read_from-itoa_from :
    (fuel n : ℕ) (rest : String) → n < fuel → read_from 0 (itoa_from fuel n rest) ≡ read_from n rest
unfolding itoa_from read_from
read_from-itoa_from zero n rest enough = absurd (omega arith)
read_from-itoa_from (suc fuel) n rest enough =
    let digit = digit_code (n % 10) (mod-lt n (omega arith)) in
    let split = div-add-mod n 10 in
    elim (Bool-cases (ltb n 10)) [
      | inl small ↦ rw small (ap (λ m. read_from m rest) (ground (arith, digit, split)))
      | inr large ↦ rw large (
          read_from-itoa_from fuel (n / 10) _ (ground (arith, split))
          ∙ ap (λ m. read_from m rest) (ground (arith, digit, split)))
    ]

-- A number that is written in decimal is read back.
pub read-itoa : (n : ℕ) → read_from 0 (itoa n) ≡ n
unfolding itoa read_from
read-itoa n = read_from-itoa_from (suc n) n "" (omega arith)

pub itoa-injective : (m n : ℕ) → itoa m ≡ itoa n → m ≡ n
itoa-injective m n e = sym (read-itoa m) ∙ ap (read_from 0) e ∙ read-itoa n
