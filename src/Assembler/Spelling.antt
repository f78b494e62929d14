-- ===== src/Assembler/Spelling.antt =====
-- The names of operations and registers that asm.c knows, one by one.
use multicore_proccessor.Common.{
  ℕ, zero, suc, ◌/◌, ◌%◌, ◌^◌, ◌<◌, ◌≡◌, refl, Bool, true, false, not, ◌&&◌, ◌||◌, Option, none,
  some, [], ◌∷◌, arith, ◌==◌, if◌then◌else◌, get_or,
}
use multicore_proccessor.Text.Bytes.{Bytes, codes, equal}
use multicore_proccessor.Text.Tokens.{is_free, for_all, for_all-lt}
use multicore_proccessor.Text.Print.{hex_digit, hex_digits, hex_word}
use multicore_proccessor.Assembler.Names.{op_name, reg_names, find_op, find_register}
use multicore_proccessor.Assembler.Line.{is_delimiter}

-- A byte that ends a token, a line's code, or marks a label.
abbrev pub is_mark : ℕ → Bool
is_mark c = is_delimiter c || c == b':' || c == b'#'

abbrev pub op_text : ℕ → Bytes
op_text op = get_or op_name op []

-- The name of a register, or the alternative.
abbrev pub reg_text : Bool → ℕ → Bytes
reg_text alternative r =
    let (name, other) = get_or reg_names r ([], []) in if alternative then other else name

abbrev is_some : Option ℕ → ℕ → Bool
is_some none n = false
is_some (some m) n = m == n

is_some-eq : (o : Option ℕ) (n : ℕ) → is_some o n ≡ true → o ≡ some n
is_some-eq none n h = cc
is_some-eq (some m) n h = ground arith

abbrev is_cons : Bytes → Bool
is_cons [] = false
is_cons (_ ∷ _) = true

abbrev good_op : ℕ → Bool
good_op op =
    is_free is_mark (op_text op)
    && (is_cons (op_text op)
        && (not (equal (op_text op) (codes ".word")) && is_some (find_op (op_text op)) op))

abbrev good_register : Bool → ℕ → Bool
good_register alternative r =
    is_free is_mark (reg_text alternative r)
    && (is_cons (reg_text alternative r) && is_some (find_register (reg_text alternative r)) r)

good_ops : for_all 21 good_op ≡ true
unfolding for_all is_free equal find_op
good_ops = refl

good_registers : (alternative : Bool) → for_all 16 (good_register alternative) ≡ true
unfolding for_all is_free equal find_register
good_registers true = refl
good_registers false = refl

good_hex_digits : for_all 16 (λ d. not (is_mark (hex_digit d))) ≡ true
unfolding for_all hex_digit
good_hex_digits = refl

-- A name, as it is found in a line.
pub record IsName (s : Bytes) : Type 0 where
  pub first : ℕ
  pub others : Bytes
  pub spelled : s ≡ first ∷ others
  pub free : is_free is_mark s ≡ true

IsName-cons : (s : Bytes) → is_cons s ≡ true → is_free is_mark s ≡ true → IsName s
IsName-cons [] h free = absurd (cc h)
IsName-cons (c ∷ s) h free = record { first = c; others = s; spelled = refl; free = free }

and_cases : (a b : Bool) → (a && b) ≡ true → (a ≡ true) × (b ≡ true)
and_cases a b h = ground arith

not-true : (a : Bool) → not a ≡ true → a ≡ false
not-true a h = ground arith

pub op_text-IsName :
    (op : ℕ)
    → op < 21
    → IsName (op_text op)
      × (equal (op_text op) (codes ".word") ≡ false)
      × (find_op (op_text op) ≡ some op)
op_text-IsName op lt =
    let good = for_all-lt 21 op good_op good_ops lt in
    let (free, more) = and_cases (is_free is_mark (op_text op)) _ good in
    let (cons, last) = and_cases (is_cons (op_text op)) _ more in
    let (directive, found) = and_cases (not (equal (op_text op) (codes ".word"))) _ last in
    (
      IsName-cons (op_text op) cons free,
      not-true (equal (op_text op) (codes ".word")) directive,
      is_some-eq (find_op (op_text op)) op found,
    )

pub reg_text-IsName :
    (alternative : Bool) (r : ℕ)
    → r < 16
    → IsName (reg_text alternative r) × (find_register (reg_text alternative r) ≡ some r)
reg_text-IsName alternative r lt =
    let good = for_all-lt 16 r (good_register alternative) (good_registers alternative) lt in
    let (free, more) = and_cases (is_free is_mark (reg_text alternative r)) _ good in
    let (cons, found) = and_cases (is_cons (reg_text alternative r)) _ more in
    (
      IsName-cons (reg_text alternative r) cons free,
      is_some-eq (find_register (reg_text alternative r)) r found,
    )

both : (a b : Bool) → a ≡ true → b ≡ true → (a && b) ≡ true
both a b h h' = ground arith

hex_digits-free : (n v : ℕ) → is_free is_mark (hex_digits n v) ≡ true
unfolding is_free hex_digits
hex_digits-free zero v = refl
hex_digits-free (suc n) v =
    let good =
      for_all-lt 16 (v / 16 ^ n % 16) (λ d. not (is_mark (hex_digit d))) good_hex_digits
        (omega arith) in
    both _ _ good (hex_digits-free n v)

pub hex_word-free : (v : ℕ) → is_free is_mark (hex_word v) ≡ true
unfolding hex_word
hex_word-free v = hex_digits-free 8 v
