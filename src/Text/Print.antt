-- ===== src/Text/Print.antt =====
-- `%08X` of `printf`, and the files that hold a word on each line.
use multicore_proccessor.Common.{
  ℕ, zero, suc, ◌+◌, ◌-◌, ◌/◌, ◌%◌, ◌^◌, [], ◌∷◌, ◌++◌, ltb, if◌then◌else◌,
}
use multicore_proccessor.Text.Bytes.{Bytes}

unfoldable pub hex_digit : ℕ → ℕ
hex_digit d = if ltb d 10 then b'0' + d else b'A' + (d - 10)

-- The last `n` digits of a number.
unfoldable pub hex_digits : ℕ → ℕ → Bytes
unfolding hex_digit
hex_digits zero v = []
hex_digits (suc n) v = hex_digit (v / 16 ^ n % 16) ∷ hex_digits n v

-- `%08X` of a word
unfoldable pub hex_word : ℕ → Bytes
unfolding hex_digits
hex_word v = hex_digits 8 v

-- `for (i = from; …; i++) fprintf(file, "%08X\n", words[i])`, of which `n` rounds are left.
unfoldable pub print_words : ℕ → ℕ → (ℕ → ℕ) → Bytes
unfolding hex_word
print_words zero from words = []
print_words (suc n) from words = hex_word (words from) ++ b'\n' ∷ print_words n (from + 1) words
