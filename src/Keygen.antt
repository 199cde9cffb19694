-- ===== src/Keygen.antt =====
-- The key generator: `shortKeyFromURL` of internal/service/url_service_impl.go, and the
-- `fmt.Sprintf("%s:%d", …)` with which a colliding URL is salted. The hash is a parameter.
pub mod Decimal
pub mod Numerals
pub mod Digits
pub mod Collisions
use Prim.Native.String.{[], ◌∷◌, ◌++◌}
use production_ready_url_sho.Common.{ℕ, zero, suc, ◌+◌, ◌*◌, ◌/◌, ◌%◌, String, List, nth_char}

abbrev pub base62_alphabet : String
base62_alphabet = "0123456789abcdefghijklmnopqrstuvwxyzABCDEFGHIJKLMNOPQRSTUVWXYZ"

abbrev pub short_key_length : ℕ
short_key_length = 11

abbrev pub max_collision_retries : ℕ
max_collision_retries = 5

-- `len(base62Alphabet)`
abbrev pub base : ℕ
base = 62

-- `new(big.Int).SetBytes(bytes)`: big-endian
unfoldable pub set_bytes : ℕ → List ℕ → ℕ
set_bytes acc List.[] = acc
set_bytes acc (List.◌∷◌ b bytes) = set_bytes (acc * 256 + b) bytes

-- The loop, for as many rounds as bytes are missing: each round writes one byte.
unfoldable pub write_digits : ℕ → ℕ → String → String
write_digits zero n b = b
write_digits (suc missing) n b =
    write_digits missing (n / base) (b ++ (nth_char base62_alphabet (n % base) ∷ []))

module _ (sum256 : String → List ℕ) where
  unfoldable pub short_key_from_url : String → String
  unfolding set_bytes write_digits
  short_key_from_url url = write_digits short_key_length (set_bytes 0 (sum256 url)) ""
