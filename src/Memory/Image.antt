-- ===== src/Memory/Image.antt =====
-- The text of a memory: what MainMemory_Init of Interface/src/MainMemory.c loads of a file, and what
-- MainMemory_PrintData writes.
use multicore_proccessor.Common.{
  ℕ, zero, suc, ◌+◌, ◌-◌, ◌*◌, ◌^◌, ◌≤◌, ◌<◌, ◌≡◌, refl, sym, ap, ◌∙◌, Option, none, some, [], ◌∷◌,
  ◌++◌, arith, ltb, leb, ◌&&◌, if◌then◌else◌, update, length, u16,
}
use multicore_proccessor.Text.Bytes.{Bytes}
use multicore_proccessor.Text.Scan.{word, refused, end, fscanf_word}
use multicore_proccessor.Text.Print.{hex_word, hex_digits, print_words}
use multicore_proccessor.Text.RoundTrip.{fscanf_word-hex_word}
use multicore_proccessor.Memory.{Memory, main_memory_size, get_memory_length}
use multicore_proccessor.Memory.Contents.{IsLength, get_memory_length-IsLength}

-- The loop of `MainMemory_Init` on fuel, which is out at `none`. The index is a `uint16_t`, so that its
-- test against the size of the memory never fails. What `fscanf` refuses stays in the file,
-- but for a sign and a prefix.
unfoldable pub load_text : ℕ → Bytes → ℕ → (ℕ → ℕ) → Option (ℕ → ℕ)
unfolding fscanf_word
load_text zero s line words = none
load_text (suc n) s line words = elim (fscanf_word s) [
  | end ↦ some words
  | refused rest ↦ load_text n rest (u16 (line + 1)) words
  | word v rest ↦ load_text n rest (u16 (line + 1)) (update words line v)
]

-- `MainMemory_PrintData`
unfoldable pub print_memory : Memory → Bytes
unfolding print_words get_memory_length
print_memory m = print_words (get_memory_length m) 0 m.words

load_text-word :
    (n : ℕ) (s : Bytes) (line : ℕ) (words : ℕ → ℕ) {v : ℕ} {rest : Bytes}
    → fscanf_word s ≡ word v rest
    → load_text (suc n) s line words ≡ load_text n rest (u16 (line + 1)) (update words line v)
unfolding load_text
load_text-word n s line words h = ground arith

load_text-refused :
    (n : ℕ) (s : Bytes) (line : ℕ) (words : ℕ → ℕ) {rest : Bytes}
    → fscanf_word s ≡ refused rest
    → load_text (suc n) s line words ≡ load_text n rest (u16 (line + 1)) words
unfolding load_text
load_text-refused n s line words h = ground arith

-- Where a file goes on with something that `fscanf` refuses and leaves as it is, the loop never ends.
pub load_text-hangs :
    (fuel : ℕ) (s : Bytes) (line : ℕ) (words : ℕ → ℕ)
    → fscanf_word s ≡ refused s
    → load_text fuel s line words ≡ none
unfolding load_text
load_text-hangs zero s line words h = refl
load_text-hangs (suc fuel) s line words h =
    load_text-refused fuel s line words h ∙ load_text-hangs fuel s (u16 (line + 1)) words h

load_text-end :
    (n line : ℕ) (words : ℕ → ℕ) → load_text (suc n) (b'\n' ∷ []) line words ≡ some words
unfolding load_text fscanf_word
load_text-end n line words = refl

next_line : (line n : ℕ) → line + suc (suc n) ≤ 2 ^ 16 → u16 (line + 1) ≡ line + 1
next_line line n h = omega arith

-- The words from `line` to `line + n`, put over a memory.
abbrev pub overlay : ℕ → ℕ → (ℕ → ℕ) → (ℕ → ℕ) → ℕ → ℕ
overlay n line words old i = if leb line i && ltb i (line + n) then words i else old i

module _ (words : ℕ → ℕ) (fits : (i : ℕ) → words i < 2 ^ 32) where
  load_text-overlay :
      (n k line : ℕ) (old : ℕ → ℕ)
      → n < k
      → line + n ≤ 2 ^ 16
      → (loaded : ℕ → ℕ) × (load_text k (b'\n' ∷ print_words n line words) line old ≡ some loaded)
        × ((i : ℕ) → loaded i ≡ overlay n line words old i)
  unfolding print_words
  load_text-overlay zero zero line old lt room = absurd (omega arith)
  load_text-overlay zero (suc k) line old lt room =
      (old, load_text-end k line old, λ i. ground arith)
  load_text-overlay (suc n) zero line old lt room = absurd (omega arith)
  load_text-overlay (suc zero) (suc zero) line old lt room = absurd (omega arith)
  load_text-overlay (suc zero) (suc (suc k)) line old lt room = (
    update old line (words line),
    load_text-word (suc k) (b'\n' ∷ (hex_word (words line) ++ b'\n' ∷ [])) line old
          (fscanf_word-hex_word (words line) (b'\n' ∷ []) (fits line)).1
        ∙ load_text-end k (u16 (line + 1)) (update old line (words line)),
    λ i. ground arith,
  )
  load_text-overlay (suc (suc n)) (suc k) line old lt room =
      let s = b'\n' ∷ print_words (suc n) (line + 1) words in
      let (loaded, ends, is) =
        load_text-overlay (suc n) k (line + 1) (update old line (words line)) (omega arith)
          (omega arith) in
      (
        loaded,
        load_text-word k (b'\n' ∷ (hex_word (words line) ++ s)) line old
              (fscanf_word-hex_word (words line) s (fits line)).1
            ∙ ap (λ (l : ℕ). load_text k s l (update old line (words line))) (next_line line n room)
            ∙ ends,
        λ i. ground (arith, is i),
      )

  -- The first word has no newline before it.
  pub load_text-printed :
      (n k : ℕ)
      → 1 ≤ n
      → n < k
      → n ≤ 2 ^ 16
      → (loaded : ℕ → ℕ) × (load_text k (print_words n 0 words) 0 (λ _. 0) ≡ some loaded)
        × ((i : ℕ) → loaded i ≡ overlay n 0 words (λ _. 0) i)
  unfolding print_words
  load_text-printed zero k one lt room = absurd (omega arith)
  load_text-printed (suc n) zero one lt room = absurd (omega arith)
  load_text-printed (suc n) (suc k) one lt room =
      let (loaded, ends, is) = load_text-overlay (suc n) (suc k) 0 (λ _. 0) lt (omega arith) in
      let s = b'\n' ∷ print_words n 1 words in
      let read = fscanf_word-hex_word (words 0) s (fits 0) in
      (
        loaded,
        load_text-word k (hex_word (words 0) ++ s) 0 (λ _. 0) read.0
            ∙ sym (load_text-word k (b'\n' ∷ (hex_word (words 0) ++ s)) 0 (λ _. 0) read.1)
            ∙ ends,
        is,
      )

pub length-print_words : (n from : ℕ) (words : ℕ → ℕ) → length (print_words n from words) ≡ 9 * n
unfolding print_words hex_word hex_digits
length-print_words zero from words = refl
length-print_words (suc n) from words = omega (arith, length-print_words n (from + 1) words)

length-below :
    (words : ℕ → ℕ) (n : ℕ)
    → IsLength words main_memory_size n
    → ((i : ℕ) → 2 ^ 16 ≤ i → words i ≡ 0)
    → n ≤ 2 ^ 16
length-below words n h zeros = ground (arith, h.3, zeros (n - 1))

pub overlay-all :
    (words : ℕ → ℕ) (n i : ℕ)
    → (n ≤ i → i < main_memory_size → words i ≡ 0)
    → (2 ^ 16 ≤ i → words i ≡ 0)
    → overlay n 0 words (λ _. 0) i ≡ words i
overlay-all words n i h zeros = ground arith

load_text-length :
    (words : ℕ → ℕ) (n fuel : ℕ)
    → ((i : ℕ) → words i < 2 ^ 32)
    → ((i : ℕ) → 2 ^ 16 ≤ i → words i ≡ 0)
    → IsLength words main_memory_size n
    → length (print_words n 0 words) ≤ fuel
    → (loaded : ℕ → ℕ) × (load_text fuel (print_words n 0 words) 0 (λ _. 0) ≡ some loaded)
      × ((i : ℕ) → loaded i ≡ words i)
load_text-length words n fuel fits zeros h enough =
    let size = length-print_words n 0 words in
    let (loaded, ends, is) =
      load_text-printed words fits n fuel (omega (arith, h.0)) (omega (arith, size, enough, h.0))
        (length-below words n h zeros) in
    (loaded, ends, λ i. is i ∙ overlay-all words n i (h.2 i) (zeros i))

-- A memory of words of 32 bits that are zero from 2 ^ 16 on is loaded back, word for word, from the text
-- that is written of it, with a unit of fuel for each byte of the text.
load_text-print_memory :
    (m : Memory) (fuel : ℕ)
    → ((i : ℕ) → m.words i < 2 ^ 32)
    → ((i : ℕ) → 2 ^ 16 ≤ i → m.words i ≡ 0)
    → length (print_memory m) ≤ fuel
    → (loaded : ℕ → ℕ) × (load_text fuel (print_memory m) 0 (λ _. 0) ≡ some loaded)
      × ((i : ℕ) → loaded i ≡ m.words i)
unfolding print_memory
load_text-print_memory m fuel fits zeros enough =
    load_text-length m.words (get_memory_length m) fuel fits zeros (get_memory_length-IsLength m)
      enough
