-- ===== src/Text/RoundTrip.antt =====
-- What `%08X` writes is read back by `%x` and `%08x`.
use multicore_proccessor.Common.{
  ℕ, zero, suc, ◌+◌, ◌*◌, ◌/◌, ◌%◌, ◌^◌, ◌<◌, ◌≡◌, refl, sym, ap, ◌∙◌, Bool, false, none, some, [],
  ◌∷◌, ◌++◌, arith, ◌==◌,
}
use multicore_proccessor.Text.Bytes.{Bytes, skip}
use multicore_proccessor.Text.Scan.{
  is_space, digit, digits, number, sign, prefix, matched, signed_hex, hex_in_range, scan_hex, word,
  field, field_of, fscanf_word,
}
use multicore_proccessor.Text.Print.{hex_digit, hex_digits, hex_word}
use native.Mathlib.Nat.{pow-suc, div-div-eq-div-mul}

pub digit-hex_digit : (d : ℕ) → d < 16 → digit 16 (hex_digit d) ≡ some d
unfolding digit hex_digit
digit-hex_digit d h = ground arith

-- A text that ends a number.
abbrev pub Ends : Bytes → Type 0
Ends [] = Unit
Ends (c ∷ cs) = digit 16 c ≡ none

digits-Ends : (v : ℕ) (rest : Bytes) → Ends rest → digits 16 v rest ≡ (v, rest)
unfolding digits
digits-Ends v [] h = refl
digits-Ends v (c ∷ cs) h = ground arith

digits-digit :
    (base v c : ℕ) {d : ℕ} (rest : Bytes)
    → digit base c ≡ some d
    → digits base v (c ∷ rest) ≡ digits base (v * base + d) rest
unfolding digits
digits-digit base v c rest h = ground arith

-- With the leading part of a number read, its last digits bring the number.
digits-hex_digits :
    (n v : ℕ) (rest : Bytes)
    → Ends rest
    → digits 16 (v / 16 ^ n) (hex_digits n v ++ rest) ≡ (v, rest)
unfolding hex_digits
digits-hex_digits zero v rest h =
    ap (λ (x : ℕ). digits 16 x rest) (omega arith) ∙ digits-Ends v rest h
digits-hex_digits (suc n) v rest h =
    let q : v / 16 ^ suc n ≡ v / 16 ^ n / 16 =
      ap (λ (x : ℕ). v / x) (pow-suc 16 n) ∙ sym (div-div-eq-div-mul v (16 ^ n) 16) in
    digits-digit 16 (v / 16 ^ suc n) (hex_digit (v / 16 ^ n % 16)) _
      (digit-hex_digit (v / 16 ^ n % 16) (omega arith))
    ∙ ap (λ (x : ℕ). digits 16 x (hex_digits n v ++ rest)) (omega (arith, q))
    ∙ digits-hex_digits n v rest h

number-digit :
    (base c : ℕ) {d : ℕ} (rest : Bytes)
    → digit base c ≡ some d
    → number base (c ∷ rest) ≡ some (digits base d rest)
unfolding number
number-digit base c rest h = ground arith

number-hex_word :
    (v : ℕ) (rest : Bytes)
    → v < 2 ^ 32
    → Ends rest
    → number 16 (hex_word v ++ rest) ≡ some (v, rest)
unfolding hex_word
number-hex_word v rest lt h =
    number-digit 16 (hex_digit (v / 16 ^ 7 % 16)) (hex_digits 7 v ++ rest)
      (digit-hex_digit (v / 16 ^ 7 % 16) (omega arith))
    ∙ ap (λ (x : ℕ). some (digits 16 x (hex_digits 7 v ++ rest))) (omega arith)
    ∙ ap some (digits-hex_digits 7 v rest h)

-- A digit is no white space, no sign and no part of the prefix `0x`.
hex_digit-plain :
    (d : ℕ)
    → d < 16
    → (is_space (hex_digit d) ≡ false)
      × ((hex_digit d == b'-') ≡ false)
      × ((hex_digit d == b'+') ≡ false)
      × ((hex_digit d == b'x') ≡ false)
      × ((hex_digit d == b'X') ≡ false)
unfolding hex_digit
hex_digit-plain d h = ground arith

skip-head : (kind : ℕ → Bool) (c : ℕ) (s : Bytes) → kind c ≡ false → skip kind (c ∷ s) ≡ c ∷ s
unfolding skip
skip-head kind c s h = ground arith

sign-head :
    (c : ℕ) (s : Bytes) → (c == b'-') ≡ false → (c == b'+') ≡ false → sign (c ∷ s) ≡ (false, c ∷ s)
unfolding sign
sign-head c s h h' = ground arith

prefix-head :
    (c d : ℕ) (s : Bytes)
    → (d == b'x') ≡ false
    → (d == b'X') ≡ false
    → prefix (c ∷ d ∷ s) ≡ c ∷ d ∷ s
unfolding prefix
prefix-head c d s h h' = ground arith

-- A word that `%08X` has written is what `%x` reads, if no other digit follows.
pub scan_hex-hex_word :
    (v : ℕ) (rest : Bytes) → v < 2 ^ 32 → Ends rest → scan_hex (hex_word v ++ rest) ≡ matched v rest
unfolding scan_hex hex_word
scan_hex-hex_word v rest lt h =
    let c = hex_digit (v / 16 ^ 7 % 16) in
    let d = hex_digit (v / 16 ^ 6 % 16) in
    let more = hex_digits 6 v ++ rest in
    let (space, minus, plus, _, _) = hex_digit-plain (v / 16 ^ 7 % 16) (omega arith) in
    let (_, _, _, lower, upper) = hex_digit-plain (v / 16 ^ 6 % 16) (omega arith) in
    ap (λ (s : Bytes). signed_hex (sign s)) (skip-head is_space c (d ∷ more) space)
    ∙ ap signed_hex (sign-head c (d ∷ more) minus plus)
    ∙ ap (λ (s : Bytes). hex_in_range false (number 16 s)) (prefix-head c d more lower upper)
    ∙ ap (hex_in_range false) (number-hex_word v rest lt h)
    ∙ ground arith

-- A line of a file of words is read back by `%08x`, with the white space in front of it.
pub fscanf_word-hex_word :
    (v : ℕ) (rest : Bytes)
    → v < 2 ^ 32
    → (fscanf_word (hex_word v ++ rest) ≡ word v rest)
      × (fscanf_word (b'\n' ∷ (hex_word v ++ rest)) ≡ word v rest)
unfolding fscanf_word hex_word
fscanf_word-hex_word v rest lt =
    let c = hex_digit (v / 16 ^ 7 % 16) in
    let space = (hex_digit-plain (v / 16 ^ 7 % 16) (omega arith)).0 in
    let read : fscanf_word (hex_word v ++ rest) ≡ word v rest =
      ap field (skip-head is_space c (hex_digits 7 v ++ rest) space)
      ∙ ap (field_of (hex_word v) rest) (scan_hex-hex_word v [] lt tt) in
    (read, read)
