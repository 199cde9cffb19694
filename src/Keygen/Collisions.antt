-- ===== src/Keygen/Collisions.antt =====
-- What a short key is, and when two URLs share one.
use text.Mathlib.TextLemmas.{nil-append}
use production_ready_url_sho.Common.{
  ℕ, ◌%◌, ◌^◌, ◌≡◌, ◌↔◌, sym, ap, ◌∙◌, String, List, chars, AllChars,
}
use production_ready_url_sho.Keygen.{short_key_length, base, set_bytes, short_key_from_url}
use production_ready_url_sho.Keygen.Digits.{
  low_digits, value_of, IsBase62, write_digits-eq-append, chars-low_digits, AllChars-low_digits,
  value_of-low_digits, value_of-injective,
}

-- The number that the hash of a URL stands for.
abbrev pub hash_number : (String → List ℕ) → String → ℕ
hash_number sum256 url = set_bytes 0 (sum256 url)

module _ (sum256 : String → List ℕ) where
  pub short_key-eq-low_digits :
      (url : String)
      → short_key_from_url sum256 url ≡ low_digits short_key_length (hash_number sum256 url)
  unfolding short_key_from_url
  short_key-eq-low_digits url =
      write_digits-eq-append short_key_length (hash_number sum256 url) "" ∙ nil-append _

  -- Whatever the hash, a short key has exactly 11 characters, each of the base-62 alphabet, and
  -- read as base-62 digits, lowest first, it is the hash modulo 62 ^ 11.
  pub short_key_lem :
      (url : String)
      → (chars (short_key_from_url sum256 url) ≡ short_key_length)
        × AllChars IsBase62 (short_key_from_url sum256 url)
        × (value_of (short_key_from_url sum256 url)
            ≡ hash_number sum256 url % base ^ short_key_length)
  short_key_lem url = rw (short_key-eq-low_digits url) (
    chars-low_digits short_key_length (hash_number sum256 url),
    AllChars-low_digits short_key_length (hash_number sum256 url),
    value_of-low_digits short_key_length (hash_number sum256 url),
  )

  -- Two URLs get the same short key exactly if their hashes agree modulo 62 ^ 11.
  pub collision_iff :
      (u v : String)
      → (short_key_from_url sum256 u ≡ short_key_from_url sum256 v) ↔ (
          hash_number sum256 u % base ^ short_key_length
          ≡ hash_number sum256 v % base ^ short_key_length)
  collision_iff u v =
      let (lu, au, vu) = short_key_lem u in
      let (lv, av, vv) = short_key_lem v in
      (
        λ e. sym vu ∙ ap value_of e ∙ vv,
        λ e. value_of-injective _ _ au av (lu ∙ sym lv) (vu ∙ e ∙ sym vv),
      )
