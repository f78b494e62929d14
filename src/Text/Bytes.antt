-- ===== src/Text/Bytes.antt =====
-- Bytes of a text, and `strcmp`, `strchr` and `strtok` of <string.h> on them.
use multicore_proccessor.Common.{
  ℕ, Bool, true, false, ◌&&◌, ◌||◌, Option, none, some, List, [], ◌∷◌, ◌≡◌, ◌↔◌, arith, ◌==◌,
  if◌then◌else◌,
}
use Prim.Native.Char.{code}
use Prim.Native.String.{String}

abbrev pub Bytes : Type 0
Bytes = List ℕ

-- The bytes of a literal.
abbrev pub codes : String → Bytes
codes String.[] = []
codes (String.◌∷◌ c s) = code c ∷ codes s

-- `strcmp(a, b) == 0`
unfoldable pub equal : Bytes → Bytes → Bool
equal [] [] = true
equal (x ∷ xs) (y ∷ ys) = x == y && equal xs ys
equal [] (y ∷ ys) = false
equal (x ∷ xs) [] = false

pub equal_iff : (a b : Bytes) → (equal a b ≡ true) ↔ (a ≡ b)
unfolding equal
equal_iff [] [] = ground arith
equal_iff (x ∷ a) (y ∷ b) = ground (arith, equal_iff a b)
equal_iff [] (y ∷ b) = ground arith
equal_iff (x ∷ a) [] = ground arith

-- `strchr(s, c) != NULL`
unfoldable pub has : ℕ → Bytes → Bool
has c [] = false
has c (x ∷ xs) = x == c || has c xs

-- The text before the first byte of the kind, as when that byte is overwritten by a zero.
unfoldable pub before : (ℕ → Bool) → Bytes → Bytes
before stops [] = []
before stops (x ∷ xs) = let rest = before stops xs in if stops x then [] else x ∷ rest

-- The text behind the first byte of the kind.
unfoldable pub behind : (ℕ → Bool) → Bytes → Bytes
behind stops [] = []
behind stops (x ∷ xs) = let rest = behind stops xs in if stops x then xs else rest

unfoldable pub skip : (ℕ → Bool) → Bytes → Bytes
skip kind [] = []
skip kind (x ∷ xs) = let rest = skip kind xs in if kind x then rest else x ∷ xs

-- `strtok` with the delimiters: the token, and where the next call goes on.
unfoldable pub strtok : (ℕ → Bool) → Bytes → Option (Bytes × Bytes)
unfolding skip before behind
strtok delimiter s = elim (skip delimiter s) [
  | [] ↦ none
  | x ∷ xs ↦ some (before delimiter (x ∷ xs), behind delimiter (x ∷ xs))
]
