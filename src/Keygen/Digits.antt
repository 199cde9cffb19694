-- ===== src/Keygen/Digits.antt =====
-- The bytes that the loop writes are base-62 digits, the lowest first.
use Prim.Native.Char.{code}
use Prim.Native.String.{[], ◌∷◌, ◌++◌}
use native.Mathlib.Nat.{div-add-mod, div-div-eq-div-mul, pow-succ'}
use mathlib.Core.Path.{ap₂}
use text.Mathlib.TextEquality.{Char-path}
use text.Mathlib.TextLemmas.{nil-append, cons-append, append-nil, append_assoc}
use production_ready_url_sho.Common.{
  ℕ, zero, suc, ◌+◌, ◌*◌, ◌/◌, ◌%◌, ◌^◌, ◌<◌, ◌≡◌, refl, sym, ap, ◌∙◌, Char, String, Bool, true,
  chars, nth_char, AllChars, eqb, eqb_iff, all_to, all_to_lem, if◌then◌else◌, arith,
}
use production_ready_url_sho.Keygen.{base62_alphabet, base, write_digits}

-- The position of a character in a text, its length if it is not there.
unfoldable pub index_of : Char → String → ℕ
index_of c [] = 0
index_of c (d ∷ s) = if eqb (code c) (code d) then 0 else suc (index_of c s)

-- The digits of a number, as many as asked for.
unfoldable pub low_digits : ℕ → ℕ → String
low_digits zero n = []
low_digits (suc k) n = nth_char base62_alphabet (n % base) ∷ low_digits k (n / base)

-- Reading a key back.
unfoldable pub value_of : String → ℕ
value_of [] = 0
value_of (c ∷ s) = index_of c base62_alphabet + base * value_of s

pub write_digits-eq-append : (k n : ℕ) (b : String) → write_digits k n b ≡ b ++ low_digits k n
unfolding write_digits low_digits
write_digits-eq-append zero n b = sym (append-nil b)
write_digits-eq-append (suc k) n b =
    write_digits-eq-append k (n / base) (b ++ (nth_char base62_alphabet (n % base) ∷ []))
    ∙ append_assoc b (nth_char base62_alphabet (n % base) ∷ []) (low_digits k (n / base))
    ∙ (rw (cons-append, nil-append))

-- The letter at a position is found there, and not before.
abbrev found_there : ℕ → Bool
found_there i = eqb (index_of (nth_char base62_alphabet i) base62_alphabet) i

-- The alphabet has no character twice.
alphabet_table : all_to found_there 61 ≡ true
unfolding index_of
alphabet_table = refl

pub index_of-nth_char :
    (i : ℕ) → i < base → index_of (nth_char base62_alphabet i) base62_alphabet ≡ i
index_of-nth_char i h = (eqb_iff _ i).0 (all_to_lem found_there 61 i (omega arith) alphabet_table)

pub chars-low_digits : (k n : ℕ) → chars (low_digits k n) ≡ k
unfolding low_digits
chars-low_digits zero n = refl
chars-low_digits (suc k) n = ap suc (chars-low_digits k (n / base))

-- Being a character of the alphabet.
abbrev pub IsBase62 : Char → Type 0
IsBase62 c = index_of c base62_alphabet < base

pub AllChars-low_digits : (k n : ℕ) → AllChars IsBase62 (low_digits k n)
unfolding low_digits
AllChars-low_digits zero n = tt
AllChars-low_digits (suc k) n =
    (omega (arith, index_of-nth_char (n % base) (omega arith)), AllChars-low_digits k (n / base))

-- Splitting off the lowest digit.
mod_split : (n m : ℕ) → n % (base * m) ≡ n % base + base * (n / base % m)
mod_split n m =
    let whole : base * m * (n / base / m) + n % (base * m) ≡ n =
      rw (div-div-eq-div-mul n base m) (div-add-mod n (base * m)) in
    omega (arith, whole, div-add-mod (n / base) m)

-- The digits read back are the number modulo the power of the base.
pub value_of-low_digits : (k n : ℕ) → value_of (low_digits k n) ≡ n % base ^ k
unfolding value_of low_digits
value_of-low_digits zero n = omega arith
value_of-low_digits (suc k) n = rw pow-succ' (
    omega (
      arith,
      index_of-nth_char (n % base) (omega arith),
      value_of-low_digits k (n / base),
      mod_split n (base ^ k),
    ))

nth_char-index_of :
    (c : Char) (s : String) → index_of c s < chars s → code (nth_char s (index_of c s)) ≡ code c
unfolding index_of
nth_char-index_of c [] h = absurd (omega arith)
nth_char-index_of c (d ∷ s) h = ground (arith, nth_char-index_of c s)

index_of-injective :
    (c d : Char)
    → IsBase62 c
    → IsBase62 d
    → index_of c base62_alphabet ≡ index_of d base62_alphabet
    → c ≡ d
index_of-injective c d hc hd e = Char-path c d (
    sym (nth_char-index_of c base62_alphabet hc)
    ∙ ap (λ i. code (nth_char base62_alphabet i)) e
    ∙ nth_char-index_of d base62_alphabet hd)

-- Reading back loses nothing: digits of the alphabet are determined by their value.
pub value_of-injective :
    (s t : String)
    → AllChars IsBase62 s
    → AllChars IsBase62 t
    → chars s ≡ chars t
    → value_of s ≡ value_of t
    → s ≡ t
unfolding value_of
value_of-injective [] [] hs ht l e = refl
value_of-injective [] (d ∷ t) hs ht l e = absurd (omega arith)
value_of-injective (c ∷ s) [] hs ht l e = absurd (omega arith)
value_of-injective (c ∷ s) (d ∷ t) (hc, hs) (hd, ht) l e =
    ap₂ (λ x xs. x ∷ xs) (index_of-injective c d hc hd (omega arith))
      (value_of-injective s t hs ht (omega arith) (omega arith))
