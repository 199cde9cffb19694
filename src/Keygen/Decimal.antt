-- ===== src/Keygen/Decimal.antt =====
-- `%d` and `strconv.Itoa`, for a number that is not negative.
use Prim.Native.String.{◌∷◌, ◌++◌}
use production_ready_url_sho.Common.{
  ℕ, zero, suc, ◌/◌, ◌%◌, ◌≡◌, refl, String, ltb, nth_char, if◌then◌else◌,
}

-- `fuel` bounds the number of digits.
unfoldable pub itoa_from : ℕ → ℕ → String → String
itoa_from zero n rest = rest
itoa_from (suc fuel) n rest =
    let out = nth_char "0123456789" (n % 10) ∷ rest in
    let more = itoa_from fuel (n / 10) out in if ltb n 10 then out else more

unfoldable pub itoa : ℕ → String
unfolding itoa_from
itoa n = itoa_from (suc n) n ""

-- `fmt.Sprintf("%s:%d", text, n)`
unfoldable pub salted : String → ℕ → String
unfolding itoa
salted text n = text ++ ":" ++ itoa n

itoa_tests : (itoa 0 ≡ "0") × (itoa 7 ≡ "7") × (itoa 1234567890 ≡ "1234567890")
unfolding itoa
itoa_tests = (refl, refl, refl)

salted_test : salted "https://a" 3 ≡ "https://a:3"
unfolding salted
salted_test = refl
