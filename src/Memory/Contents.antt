-- ===== src/Memory/Contents.antt =====
-- What the words of the main memory are after loading and after a transaction's word, and its length.
use multicore_proccessor.Common.{
  ℕ, zero, suc, ◌+◌, ◌-◌, ◌^◌, ◌≤◌, ◌<◌, ◌≡◌, ◌≢◌, List, [], ◌∷◌, length, get_or, arith, refl,
  update, u16,
}
use multicore_proccessor.Memory.{
  Memory, init, load_lines, last_used, get_memory_length, main_memory_size,
}

last_used-le : (words : ℕ → ℕ) (n : ℕ) → last_used words n ≤ n
unfolding last_used
last_used-le words zero = omega arith
last_used-le words (suc n) = ground (arith, last_used-le words n)

last_used-zero : (words : ℕ → ℕ) (n i : ℕ) → last_used words n < i → i ≤ n → words i ≡ 0
unfolding last_used
last_used-zero words zero i h le = absurd (omega arith)
last_used-zero words (suc n) i h le = ground (arith, last_used-zero words n i, last_used-le words n)

last_used-ne : (words : ℕ → ℕ) (n : ℕ) → last_used words n ≢ 0 → words (last_used words n) ≢ 0
unfolding last_used
last_used-ne words zero h = absurd (h refl)
last_used-ne words (suc n) h = ground (arith, last_used-ne words n)

-- The first `n` words hold all that is not zero below `size`, and no fewer would.
abbrev pub IsLength : (ℕ → ℕ) → ℕ → ℕ → Type 0
IsLength words size n =
    (0 < n) × (n ≤ size) × ((i : ℕ) → n ≤ i → i < size → words i ≡ 0) × (1 < n → words (n - 1) ≢ 0)

last_used-IsLength :
    (words : ℕ → ℕ) (top n : ℕ) → n ≡ last_used words top + 1 → IsLength words (top + 1) n
last_used-IsLength words top n e = (
  omega arith,
  omega (arith, last_used-le words top),
  λ i h le. last_used-zero words top i (omega arith) (omega arith),
  λ h. last_word (n - 1) (omega arith) (omega arith),
)
  where
    last_word : (k : ℕ) → k ≡ last_used words top → k ≢ 0 → words k ≢ 0
    last_word k q h = rw q (last_used-ne words top (λ z. h (omega arith)))

-- The length that is printed covers the memory's contents and no more: it is between one word and the
-- whole memory, every word from it on is zero, and if it is above one, its last word is not zero.
pub get_memory_length-IsLength :
    (m : Memory) → IsLength m.words main_memory_size (get_memory_length m)
unfolding get_memory_length
get_memory_length-IsLength m = last_used-IsLength m.words (main_memory_size - 1) _ refl

load_lines-above :
    (lines : List ℕ) (line : ℕ) (words : ℕ → ℕ) (i : ℕ)
    → line < 2 ^ 16
    → 2 ^ 16 ≤ i
    → load_lines lines line words i ≡ words i
unfolding load_lines
load_lines-above [] line words i hl hi = refl
load_lines-above (x ∷ xs) line words i hl hi =
    ground (arith, load_lines-above xs (u16 (line + 1)) (update words line x) i)

load_lines-below :
    (lines : List ℕ) (line : ℕ) (words : ℕ → ℕ) (i : ℕ)
    → line + length lines ≤ 2 ^ 16
    → i < line
    → load_lines lines line words i ≡ words i
unfolding load_lines
load_lines-below [] line words i h hi = refl
load_lines-below (x ∷ []) line words i h hi = ground arith
load_lines-below (x ∷ y ∷ xs) line words i h hi =
    ground (arith, load_lines-below (y ∷ xs) (u16 (line + 1)) (update words line x) i)

load_lines-at :
    (lines : List ℕ) (line : ℕ) (words : ℕ → ℕ) (j i : ℕ)
    → line + length lines ≤ 2 ^ 16
    → j < length lines
    → i ≡ line + j
    → load_lines lines line words i ≡ get_or lines j 0
unfolding load_lines
load_lines-at [] line words j i h hj e = absurd (omega arith)
load_lines-at (x ∷ []) line words zero i h hj e = ground arith
load_lines-at (x ∷ []) line words (suc j) i h hj e = absurd (omega arith)
load_lines-at (x ∷ y ∷ xs) line words zero i h hj e =
    ground (arith, load_lines-below (y ∷ xs) (u16 (line + 1)) (update words line x) i)
load_lines-at (x ∷ y ∷ xs) line words (suc j) i h hj e =
    ground (arith, load_lines-at (y ∷ xs) (u16 (line + 1)) (update words line x) j i)

-- An input file of at most 65536 lines is loaded word for word from address 0 on.
pub init-loads :
    (lines : List ℕ) (i : ℕ)
    → length lines ≤ 2 ^ 16
    → i < length lines
    → (init lines).words i ≡ get_or lines i 0
unfolding init
init-loads lines i h hi = load_lines-at lines 0 (λ _. 0) i i (omega arith) hi (omega arith)

-- Whatever the input file holds, no word from address 65536 on is loaded: the index of the loop is a
-- `uint16_t`, which begins again at 0.
pub init-loads_none_above : (lines : List ℕ) (i : ℕ) → 2 ^ 16 ≤ i → (init lines).words i ≡ 0
unfolding init
init-loads_none_above lines i h = load_lines-above lines 0 (λ _. 0) i (omega arith) h
