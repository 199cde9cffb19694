-- ===== src/Http/Escaping.antt =====
-- What net/http's `Redirect`, to which gin's `c.Redirect` hands a reply, makes of a URL with a scheme,
-- as `binding:"url"` demands: `hexEscapeNonASCII`. A text is a sequence of code points; its bytes are
-- those of UTF-8.
use Prim.Native.Char.{code}
use Prim.Native.String.{◌++◌}
use production_ready_url_sho.Common.{
  ℕ, ◌+◌, ◌/◌, ◌%◌, ◌<◌, ◌≡◌, refl, ap, true, String, List, [], ◌∷◌, AllChars, nth_char, ltb, arith,
  if◌then◌else◌,
}

unfoldable utf8 : ℕ → List ℕ
utf8 n =
    if ltb n 128
    then n ∷ []
    else if ltb n 2048
    then (192 + n / 64) ∷ (128 + n % 64) ∷ []
    else if ltb n 65536
    then (224 + n / 4096) ∷ (128 + n / 64 % 64) ∷ (128 + n % 64) ∷ []
    else (240 + n / 262144) ∷ (128 + n / 4096 % 64) ∷ (128 + n / 64 % 64) ∷ (128 + n % 64) ∷ []

-- The digits of `strconv.AppendInt` to the base 16.
abbrev hex_digits : String
hex_digits = "0123456789abcdef"

-- The bytes, each after a percent sign.
unfoldable percent_encoded : List ℕ → String → String
percent_encoded [] s = s
percent_encoded (b ∷ bs) s =
    let rest = percent_encoded bs s in
    "%"
    ++ String.◌∷◌ (nth_char hex_digits (b / 16)) (String.◌∷◌ (nth_char hex_digits (b % 16)) rest)

unfoldable pub hex_escape_non_ascii : String → String
unfolding utf8 percent_encoded
hex_escape_non_ascii String.[] = ""
hex_escape_non_ascii (String.◌∷◌ c s) =
    let rest = hex_escape_non_ascii s in
    if ltb (code c) 128 then String.◌∷◌ c rest else percent_encoded (utf8 (code c)) rest

abbrev pub IsAscii : String → Type 0
IsAscii s = AllChars (λ c. code c < 128) s

-- A URL in ASCII stays as it is.
pub hex_escape_non_ascii-IsAscii : (s : String) → IsAscii s → hex_escape_non_ascii s ≡ s
unfolding hex_escape_non_ascii
hex_escape_non_ascii-IsAscii String.[] h = refl
hex_escape_non_ascii-IsAscii (String.◌∷◌ c s) (here, h) =
    let plain : ltb (code c) 128 ≡ true = ground (arith, here) in
    rw plain (ap (λ t. String.◌∷◌ c t) (hex_escape_non_ascii-IsAscii s h))
