-- ===== src/Text/Scan.antt =====
-- `%d`, `%x` and `%08x` of `scanf`.
use multicore_proccessor.Common.{
  ℕ, ◌+◌, ◌-◌, ◌*◌, ◌%◌, ◌^◌, Bool, true, false, ◌&&◌, ◌||◌, Option, none, some, [], ◌∷◌, ◌++◌, ltb,
  leb, ◌==◌, if◌then◌else◌, zero, suc,
}
use multicore_proccessor.Text.Bytes.{Bytes, skip}

abbrev pub is_space : ℕ → Bool
is_space c = c == b' ' || (leb 9 c && leb c 13)

-- The value of a digit, of either case.
unfoldable pub any_digit : ℕ → Option ℕ
any_digit c =
    if leb b'0' c && leb c b'9'
    then some (c - b'0')
    else if leb b'A' c && leb c b'F'
    then some (c - b'A' + 10)
    else if leb b'a' c && leb c b'f'
    then some (c - b'a' + 10)
    else none

below : ℕ → Option ℕ → Option ℕ
below base none = none
below base (some v) = if ltb v base then some v else none

unfoldable pub digit : ℕ → ℕ → Option ℕ
unfolding below any_digit
digit base c = below base (any_digit c)

-- The digits that follow a number, and what is left.
unfoldable pub digits : ℕ → ℕ → Bytes → ℕ × Bytes
digits base value [] = (value, [])
digits base value (c ∷ cs) = elim (digit base c) [
  | none ↦ (value, c ∷ cs)
  | some d ↦ digits base (value * base + d) cs
]

-- One digit at least.
unfoldable pub number : ℕ → Bytes → Option (ℕ × Bytes)
unfolding digits
number base [] = none
number base (c ∷ cs) = elim (digit base c) [ none ↦ none | some d ↦ some (digits base d cs) ]

unfoldable pub sign : Bytes → Bool × Bytes
sign [] = (false, [])
sign (c ∷ cs) = if c == b'-' then (true, cs) else if c == b'+' then (false, cs) else (false, c ∷ cs)

-- The prefix that `%x` passes over.
unfoldable pub prefix : Bytes → Bytes
prefix [] = []
prefix (c ∷ []) = c ∷ []
prefix (c ∷ d ∷ rest) = if c == b'0' && (d == b'x' || d == b'X') then rest else c ∷ d ∷ rest

-- What a conversion comes to. A number that the object cannot hold is undefined in C.
pub data Scan : Type 0 where
  matched : ℕ → Bytes → Scan
  mismatch : Scan
  out_of_range : Scan

-- A word, as the pattern of its 32 bits.
unfoldable pub negated : Bool → ℕ → ℕ
negated negative v = if negative then (2 ^ 32 - v) % 2 ^ 32 else v

unfoldable pub hex_in_range : Bool → Option (ℕ × Bytes) → Scan
unfolding negated
hex_in_range negative none = mismatch
hex_in_range negative (some (v, rest)) =
    if ltb v (2 ^ 32) then matched (negated negative v) rest else out_of_range

unfoldable pub signed_hex : Bool × Bytes → Scan
unfolding hex_in_range number prefix
signed_hex (negative, s) = hex_in_range negative (number 16 (prefix s))

-- `%x`
unfoldable pub scan_hex : Bytes → Scan
unfolding signed_hex sign skip
scan_hex s = signed_hex (sign (skip is_space s))

unfoldable pub decimal_in_range : Bool → Option (ℕ × Bytes) → Scan
unfolding negated
decimal_in_range negative none = mismatch
decimal_in_range negative (some (v, rest)) =
    if leb v (if negative then 2 ^ 31 else 2 ^ 31 - 1)
    then matched (negated negative v) rest
    else out_of_range

unfoldable pub signed_decimal : Bool × Bytes → Scan
unfolding decimal_in_range number
signed_decimal (negative, s) = decimal_in_range negative (number 10 s)

-- `%d`
unfoldable pub scan_decimal : Bytes → Scan
unfolding signed_decimal sign skip
scan_decimal s = signed_decimal (sign (skip is_space s))

abbrev pub take : ℕ → Bytes → Bytes
take zero s = []
take (suc n) [] = []
take (suc n) (c ∷ cs) = c ∷ take n cs

abbrev pub drop : ℕ → Bytes → Bytes
drop zero s = s
drop (suc n) [] = []
drop (suc n) (c ∷ cs) = drop n cs

-- `fscanf(file, "%08x", …)`: at most eight bytes after white space are read. `end` is EOF.
pub data FileScan : Type 0 where
  word : ℕ → Bytes → FileScan
  refused : Bytes → FileScan
  end : FileScan

-- Of a field that is no number the sign and the prefix are read all the same; a number of eight digits
-- at most is in range.
unfoldable pub field_of : Bytes → Bytes → Scan → FileScan
unfolding sign prefix
field_of field rest (matched v unread) = word v (unread ++ rest)
field_of field rest mismatch = refused (prefix (sign field).1 ++ rest)
field_of field rest out_of_range = refused (field ++ rest)

unfoldable pub field : Bytes → FileScan
unfolding scan_hex field_of
field [] = end
field (c ∷ cs) = field_of (take 8 (c ∷ cs)) (drop 8 (c ∷ cs)) (scan_hex (take 8 (c ∷ cs)))

unfoldable pub fscanf_word : Bytes → FileScan
unfolding field skip
fscanf_word s = field (skip is_space s)
