-- ===== src/Text/Words.antt =====
-- The width of the words that `%x` reads.
use multicore_proccessor.Common.{
  ℕ, ◌^◌, ◌≡◌, refl, Bool, true, false, Option, none, some, [], ◌∷◌, arith, IsWord, ltb,
  if◌then◌else◌,
}
use multicore_proccessor.Text.Bytes.{Bytes, skip}
use multicore_proccessor.Text.Scan.{
  Scan, matched, mismatch, out_of_range, FileScan, word, refused, end, negated, hex_in_range,
  signed_hex, scan_hex, field_of, field, fscanf_word, number, prefix, sign, is_space, take, drop,
}

-- A number that is read has 32 bits.
abbrev IsWordScan : Scan → Type 0
IsWordScan (matched v rest) = IsWord v
IsWordScan mismatch = Unit {0}
IsWordScan out_of_range = Unit {0}

abbrev pub IsWordFileScan : FileScan → Type 0
IsWordFileScan (word v rest) = IsWord v
IsWordFileScan (refused rest) = Unit {0}
IsWordFileScan end = Unit {0}

negated-IsWord : (negative : Bool) (v : ℕ) → IsWord v → IsWord (negated negative v)
unfolding negated
negated-IsWord true v h = omega arith
negated-IsWord false v h = h

hex_in_range-IsWordScan :
    (negative : Bool) (r : Option (ℕ × Bytes)) → IsWordScan (hex_in_range negative r)
unfolding hex_in_range
hex_in_range-IsWordScan negative none = tt
hex_in_range-IsWordScan negative (some (v, rest)) = below (ltb v (2 ^ 32)) refl
  where
    below :
        (b : Bool)
        → b ≡ ltb v (2 ^ 32)
        → IsWordScan (if b then matched (negated negative v) rest else out_of_range)
    below true e = negated-IsWord negative v (ground (arith, e))
    below false e = tt

scan_hex-IsWordScan : (s : Bytes) → IsWordScan (scan_hex s)
unfolding scan_hex signed_hex
scan_hex-IsWordScan s =
    let (negative, rest) = sign (skip is_space s) in
    hex_in_range-IsWordScan negative (number 16 (prefix rest))

field_of-IsWordFileScan :
    (text rest : Bytes) (r : Scan) → IsWordScan r → IsWordFileScan (field_of text rest r)
unfolding field_of
field_of-IsWordFileScan text rest (matched v unread) h = h
field_of-IsWordFileScan text rest mismatch h = tt
field_of-IsWordFileScan text rest out_of_range h = tt

field-IsWordFileScan : (s : Bytes) → IsWordFileScan (field s)
unfolding field
field-IsWordFileScan [] = tt
field-IsWordFileScan (c ∷ cs) =
    field_of-IsWordFileScan (take 8 (c ∷ cs)) (drop 8 (c ∷ cs)) (scan_hex (take 8 (c ∷ cs)))
      (scan_hex-IsWordScan (take 8 (c ∷ cs)))

pub fscanf_word-IsWordFileScan : (s : Bytes) → IsWordFileScan (fscanf_word s)
unfolding fscanf_word
fscanf_word-IsWordFileScan s = field-IsWordFileScan (skip is_space s)
