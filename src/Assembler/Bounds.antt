-- ===== src/Assembler/Bounds.antt =====
-- Bounds of what asm.c reads out of a line: numbers, operations, registers.
use multicore_proccessor.Common.{
  ℕ, ◌+◌, ◌-◌, ◌^◌, ◌<◌, ◌≡◌, refl, Bool, true, false, Option, none, some, List, [], ◌∷◌, arith,
  if◌then◌else◌, ltb, leb, length,
}
use multicore_proccessor.Text.Bytes.{Bytes, skip}
use multicore_proccessor.Text.Scan.{
  Scan, matched, mismatch, out_of_range, scan_hex, scan_decimal, signed_hex, signed_decimal,
  hex_in_range, decimal_in_range, negated, number, sign, prefix, is_space,
}
use multicore_proccessor.Assembler.Result.{Result, ok, exit, undefined, ◌>>=◌, defined, or_exit}
use multicore_proccessor.Assembler.Names.{
  op_name, reg_names, index_from, register_from, find_op, find_register,
}
use multicore_proccessor.Assembler.State.{Assembler}
use multicore_proccessor.Assembler.Line.{scanned, scan_number, value, hex_part}

-- A word of 32 bits, where there is one.
abbrev pub Fits : Option ℕ → Type 0
Fits none = Unit
Fits (some v) = v < 2 ^ 32

-- Where there is a value, it has the property.
abbrev pub Holds {ℓ κ} : {A : Type ℓ} → (A → Type κ) → Result A → Type κ
Holds P (ok a) = P a
Holds P exit = Unit
Holds P undefined = Unit

pub Holds->>= {ℓ κ} :
    {A : Type ℓ} {B : Type κ} (P : A → Type 0) (Q : B → Type 0) (m : Result A) (f : A → Result B)
    → Holds P m
    → ((a : A) → P a → Holds Q (f a))
    → Holds Q (m >>= f)
Holds->>= P Q (ok a) f h k = k a h
Holds->>= P Q exit f h k = tt
Holds->>= P Q undefined f h k = tt

abbrev IsWord : Scan → Type 0
IsWord (matched v rest) = v < 2 ^ 32
IsWord mismatch = Unit
IsWord out_of_range = Unit

IsWord-if :
    (b : Bool) (v : ℕ) (rest : Bytes)
    → (b ≡ true → v < 2 ^ 32)
    → IsWord (if b then matched v rest else out_of_range)
IsWord-if true v rest h = h refl
IsWord-if false v rest h = tt

hex_in_range-IsWord : (negative : Bool) (n : Option (ℕ × Bytes)) → IsWord (hex_in_range negative n)
unfolding hex_in_range
hex_in_range-IsWord negative none = tt
hex_in_range-IsWord negative (some (v, rest)) =
    IsWord-if (ltb v (2 ^ 32)) (negated negative v) rest (λ h. unfold negated in ground arith)

decimal_in_range-IsWord :
    (negative : Bool) (n : Option (ℕ × Bytes)) → IsWord (decimal_in_range negative n)
unfolding decimal_in_range
decimal_in_range-IsWord negative none = tt
decimal_in_range-IsWord negative (some (v, rest)) =
    IsWord-if (leb v (if negative then 2 ^ 31 else 2 ^ 31 - 1)) (negated negative v) rest
      (λ h. unfold negated in ground arith)

signed_hex-IsWord : (signed : Bool × Bytes) → IsWord (signed_hex signed)
unfolding signed_hex
signed_hex-IsWord (negative, s) = hex_in_range-IsWord negative (number 16 (prefix s))

signed_decimal-IsWord : (signed : Bool × Bytes) → IsWord (signed_decimal signed)
unfolding signed_decimal
signed_decimal-IsWord (negative, s) = decimal_in_range-IsWord negative (number 10 s)

scan_hex-IsWord : (s : Bytes) → IsWord (scan_hex s)
unfolding scan_hex
scan_hex-IsWord s = signed_hex-IsWord (sign (skip is_space s))

scan_decimal-IsWord : (s : Bytes) → IsWord (scan_decimal s)
unfolding scan_decimal
scan_decimal-IsWord s = signed_decimal-IsWord (sign (skip is_space s))

scanned-Fits : (old : Option ℕ) (r : Scan) → Fits old → IsWord r → Holds Fits (scanned old r)
unfolding scanned
scanned-Fits old (matched v rest) h w = w
scanned-Fits old mismatch h w = h
scanned-Fits old out_of_range h w = tt

pub scan_number-Fits : (old : Option ℕ) (p : Bytes) → Fits old → Holds Fits (scan_number old p)
unfolding scan_number
scan_number-Fits old p h =
    elim (hex_part p)
      as (λ o. Holds Fits (elim o [
        | none ↦ scanned old (scan_decimal p)
        | some digits ↦ scanned old (scan_hex digits)
      ])) [
        | none ↦ scanned-Fits old (scan_decimal p) h (scan_decimal-IsWord p)
        | some digits ↦ scanned-Fits old (scan_hex digits) h (scan_hex-IsWord digits)
      ]

pub value-Fits : (o : Option ℕ) → Fits o → Holds (λ v. v < 2 ^ 32) (value o)
value-Fits none h = tt
value-Fits (some v) h = h

pub defined-Holds :
    (P : Assembler → Type 0) (b : Bool) (f : Unit {0} → Result Assembler)
    → (b ≡ true → Holds P (f tt))
    → Holds P (defined b >>= f)
defined-Holds P true f h = h refl
defined-Holds P false f h = tt

pub or_exit-Holds :
    (P : Assembler → Type 0) (b : Bool) (f : Unit {0} → Result Assembler)
    → (b ≡ true → Holds P (f tt))
    → Holds P (or_exit b >>= f)
or_exit-Holds P true f h = h refl
or_exit-Holds P false f h = tt

index_from-lt :
    (i : ℕ) (p : Bytes) (names : List Bytes) (j : ℕ)
    → index_from i p names ≡ some j
    → j < i + length names
unfolding index_from
index_from-lt i p [] j h = cc
index_from-lt i p (name ∷ names) j h = ground (arith, index_from-lt (i + 1) p names j)

register_from-lt :
    (i : ℕ) (p : Bytes) (names : List (Bytes × Bytes)) (j : ℕ)
    → register_from i p names ≡ some j
    → j < i + length names
unfolding register_from
register_from-lt i p [] j h = cc
register_from-lt i p ((name, alternative) ∷ names) j h =
    ground (arith, register_from-lt (i + 1) p names j)

pub find_op-lt : (p : Bytes) (op : ℕ) → find_op p ≡ some op → op < 21
unfolding find_op
find_op-lt p op h = index_from-lt 0 p op_name op h

pub find_register-lt : (p : Bytes) (r : ℕ) → find_register p ≡ some r → r < 16
unfolding find_register
find_register-lt p r h = register_from-lt 0 p reg_names r h
