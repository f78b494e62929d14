-- ===== src/Core/Imem.antt =====
-- `init_memory` of Core/src/Core.c on the text of the file that it reads.
use multicore_proccessor.Common.{
  ℕ, zero, suc, ◌+◌, ◌^◌, ◌≤◌, ◌<◌, ◌≡◌, refl, [], ◌∷◌, ◌++◌, arith, ltb, leb, ◌&&◌, if◌then◌else◌,
  update,
}
use multicore_proccessor.Instruction.{instructions_memory_size}
use multicore_proccessor.Text.Bytes.{Bytes}
use multicore_proccessor.Text.Scan.{word, refused, end, fscanf_word}
use multicore_proccessor.Text.Print.{hex_word, print_words}
use multicore_proccessor.Text.RoundTrip.{fscanf_word-hex_word}

-- The loop at the line `line`, of which `n` rounds are left at most. What `fscanf` refuses is counted
-- as a line, and leaves the memory as it is.
unfoldable pub load_text : ℕ → Bytes → ℕ → (ℕ → ℕ) → ℕ × (ℕ → ℕ)
load_text zero s line memory = (line, memory)
load_text (suc n) s line memory = elim (fscanf_word s) [
  | end ↦ (line, memory)
  | refused rest ↦ load_text n rest (line + 1) memory
  | word v rest ↦ load_text n rest (line + 1) (update memory line v)
]

-- The number of lines, and the instruction memory that was zero before.
unfoldable pub init_memory : Bytes → ℕ × (ℕ → ℕ)
unfolding load_text
init_memory s = load_text instructions_memory_size s 0 (λ _. 0)

load_text-word :
    (n : ℕ) (s : Bytes) (line : ℕ) (memory : ℕ → ℕ) {v : ℕ} {rest : Bytes}
    → fscanf_word s ≡ word v rest
    → load_text (suc n) s line memory ≡ load_text n rest (line + 1) (update memory line v)
unfolding load_text
load_text-word n s line memory h = ground arith

load_text-end :
    (n line : ℕ) (memory : ℕ → ℕ) → load_text n (b'\n' ∷ []) line memory ≡ (line, memory)
unfolding load_text fscanf_word
load_text-end zero line memory = refl
load_text-end (suc n) line memory = refl

load_text-empty : (n line : ℕ) (memory : ℕ → ℕ) → load_text n [] line memory ≡ (line, memory)
unfolding load_text fscanf_word
load_text-empty zero line memory = refl
load_text-empty (suc n) line memory = refl

-- What a memory holds once the words from `line` to `line + n` have been loaded.
abbrev IsLoaded : ℕ → ℕ → (ℕ → ℕ) → (ℕ → ℕ) → ℕ × (ℕ → ℕ) → Type 0
IsLoaded n line words memory result =
    (result.0 ≡ line + n)
    × ((i : ℕ) → result.1 i ≡ (if leb line i && ltb i (line + n) then words i else memory i))

module _ (words : ℕ → ℕ) (fits : (i : ℕ) → words i < 2 ^ 32) where
  load_text-IsLoaded :
      (n k line : ℕ) (memory : ℕ → ℕ)
      → n ≤ k
      → IsLoaded n line words memory (load_text k (b'\n' ∷ print_words n line words) line memory)
  unfolding print_words
  load_text-IsLoaded zero k line memory le = rw load_text-end (omega arith, λ i. ground arith)
  load_text-IsLoaded (suc n) zero line memory le = absurd (omega arith)
  load_text-IsLoaded (suc n) (suc k) line memory le =
      let s = b'\n' ∷ print_words n (line + 1) words in
      let e =
        load_text-word k (b'\n' ∷ (hex_word (words line) ++ s)) line memory
          (fscanf_word-hex_word (words line) s (fits line)).1 in
      let (count, rest) =
        load_text-IsLoaded n k (line + 1) (update memory line (words line)) (omega arith) in
      rw e (omega (arith, count), λ i. ground (arith, rest i))

  load_text-printed :
      (k n : ℕ)
      → n ≤ k
      → let (count, memory) = load_text k (print_words n 0 words) 0 (λ _. 0) in
        (count ≡ n) × ((i : ℕ) → memory i ≡ (if ltb i n then words i else 0))
  unfolding print_words
  load_text-printed k zero le = rw load_text-empty (refl, λ i. ground arith)
  load_text-printed zero (suc n) le = absurd (omega arith)
  load_text-printed (suc k) (suc n) le =
      let s = b'\n' ∷ print_words n 1 words in
      let e =
        load_text-word k (hex_word (words 0) ++ s) 0 (λ _. 0)
          (fscanf_word-hex_word (words 0) s (fits 0)).0 in
      let (count, rest) = load_text-IsLoaded n k 1 (update (λ _. 0) 0 (words 0)) (omega arith) in
      rw e (omega (arith, count), λ i. ground (arith, rest i))

  -- The printed words are loaded in their order, and the rest of the memory is zero.
  pub init_memory-print_words :
      (n : ℕ)
      → n ≤ instructions_memory_size
      → let (count, memory) = init_memory (print_words n 0 words) in
        (count ≡ n) × ((i : ℕ) → memory i ≡ (if ltb i n then words i else 0))
  unfolding init_memory
  init_memory-print_words n le = load_text-printed instructions_memory_size n le
