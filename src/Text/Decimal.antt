-- ===== src/Text/Decimal.antt =====
-- `%d`, `%03X` and `%06X` of `printf`.
use multicore_proccessor.Common.{ℕ, zero, suc, ◌+◌, ◌-◌, ◌/◌, ◌%◌, ◌^◌, [], ◌∷◌, ltb, if◌then◌else◌}
use multicore_proccessor.Text.Bytes.{Bytes}
use multicore_proccessor.Text.Print.{hex_digits}

-- The last `n` digits of a number.
unfoldable pub decimal_digits : ℕ → ℕ → Bytes
decimal_digits zero v = []
decimal_digits (suc n) v = (b'0' + v / 10 ^ n % 10) ∷ decimal_digits n v

-- `n` digits, or more where the number needs them, up to `more` more.
unfoldable pub decimal : ℕ → ℕ → ℕ → Bytes
unfolding decimal_digits
decimal zero n v = decimal_digits n v
decimal (suc more) n v =
    let longer = decimal more (n + 1) v in if ltb v (10 ^ n) then decimal_digits n v else longer

-- `%d` of the `int` that has the pattern: ten digits are enough.
unfoldable pub signed_word : ℕ → Bytes
unfolding decimal
signed_word v = if ltb v (2 ^ 31) then decimal 9 1 v else b'-' ∷ decimal 9 1 (2 ^ 32 - v)

-- `%0nX` of a number of `n + more` digits at most.
unfoldable pub hex_padded : ℕ → ℕ → ℕ → Bytes
unfolding hex_digits
hex_padded zero n v = hex_digits n v
hex_padded (suc more) n v =
    let longer = hex_padded more (n + 1) v in if ltb v (16 ^ n) then hex_digits n v else longer
