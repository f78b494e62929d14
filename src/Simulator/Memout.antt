-- ===== src/Simulator/Memout.antt =====
-- The text of the main memory that a run of MulticoreProcessor.c writes, as one that it reads.
use multicore_proccessor.Common.{
  ℕ, zero, suc, ◌+◌, ◌*◌, ◌^◌, ◌-◌, ◌≤◌, ◌<◌, ◌≡◌, ◌∙◌, Option, none, some, arith, IsWord,
  IsWordArray, update, update-all, u16, length,
}
use mathlib.Core.Path.{subst}
use multicore_proccessor.Text.Bytes.{Bytes}
use multicore_proccessor.Text.Scan.{FileScan, word, refused, end, fscanf_word}
use multicore_proccessor.Text.Words.{IsWordFileScan, fscanf_word-IsWordFileScan}
use multicore_proccessor.Memory.{Memory, main_memory_size, get_memory_length}
use multicore_proccessor.Memory.Image.{
  load_text, print_memory, length-print_words, overlay-all, load_text-printed,
}
use multicore_proccessor.Memory.Contents.{IsLength, get_memory_length-IsLength}
use multicore_proccessor.Core.Imem.{init_memory}
use multicore_proccessor.Core.Words.{started-HasWords}
use multicore_proccessor.Processor.{Processor, Outcome, run}
use multicore_proccessor.Processor.Words.{HoldsWords, run-HoldsWords}
use multicore_proccessor.Simulator.{Inputs, written, core_init, initialize, teardown, main}
use multicore_proccessor.Simulator.Ends.{main-written}

abbrev IsWordMemory : Option (ℕ → ℕ) → Type 0
IsWordMemory none = Unit {0}
IsWordMemory (some words) = IsWordArray words

scanned-IsWordMemory :
    (r : FileScan) (line : ℕ) (words : ℕ → ℕ) (k : Bytes → ℕ → (ℕ → ℕ) → Option (ℕ → ℕ))
    → IsWordFileScan r
    → IsWordArray words
    → ((s : Bytes) (n : ℕ) (w : ℕ → ℕ) → IsWordArray w → IsWordMemory (k s n w))
    → IsWordMemory (elim r as (λ _. Option (ℕ → ℕ)) [
      | end ↦ some words
      | refused rest ↦ k rest (u16 (line + 1)) words
      | word v rest ↦ k rest (u16 (line + 1)) (update words line v)
    ])
scanned-IsWordMemory end line words k h w f = w
scanned-IsWordMemory (refused rest) line words k h w f = f rest (u16 (line + 1)) words w
scanned-IsWordMemory (word v rest) line words k h w f =
    f rest (u16 (line + 1)) (update words line v) (update-all IsWord words line v w h)

load_text-IsWordMemory :
    (fuel : ℕ) (s : Bytes) (line : ℕ) (words : ℕ → ℕ)
    → IsWordArray words
    → IsWordMemory (load_text fuel s line words)
unfolding load_text
load_text-IsWordMemory zero s line words h = tt
load_text-IsWordMemory (suc fuel) s line words h =
    scanned-IsWordMemory (fscanf_word s) line words (load_text fuel) (fscanf_word-IsWordFileScan s)
      h (λ s n w k. load_text-IsWordMemory fuel s n w k)

pub initialize-HoldsWords :
    (words : ℕ → ℕ) (imem : ℕ → Bytes) → IsWordArray words → HoldsWords (initialize words imem)
unfolding initialize core_init
initialize-HoldsWords words imem h = record {
  cores = λ i. started-HasWords i (init_memory (imem i)).0 (init_memory (imem i)).1;
  bus = record { current = omega arith; queue = tt };
  memory = h;
}

lines_lt : {m n k : ℕ} → m ≡ 9 * n → m ≤ k → 0 < n → n < k
lines_lt e h k = omega (arith, e, h, k)

-- A memory that is zero from `2 ^ 16` on has no more words to print.
short_lem :
    (words : ℕ → ℕ) {n : ℕ}
    → IsLength words main_memory_size n
    → ((i : ℕ) → 2 ^ 16 ≤ i → i < main_memory_size → words i ≡ 0)
    → n ≤ 2 ^ 16
short_lem words {n} h zeros = ground (arith, h.3, zeros (n - 1))

-- Such a memory of words is loaded back from what is printed of it.
printed_lem :
    (m : Memory) (more : ℕ)
    → IsWordArray m.words
    → ((i : ℕ) → 2 ^ 16 ≤ i → i < main_memory_size → m.words i ≡ 0)
    → length (print_memory m) ≤ more
    → (loaded : ℕ → ℕ) × (load_text more (print_memory m) 0 (λ _. 0) ≡ some loaded)
      × ((i : ℕ) → i < main_memory_size → loaded i ≡ m.words i)
unfolding print_memory
printed_lem m more h zeros enough =
    let n = get_memory_length m in
    let is_length = get_memory_length-IsLength m in
    let size = length-print_words n 0 m.words in
    let (loaded, ends, is) =
      load_text-printed m.words h n more is_length.0 (lines_lt size enough is_length.0)
        (short_lem m.words is_length zeros) in
    (loaded, ends, λ i lt. is i ∙ overlay-all m.words n i (is_length.2 i) (λ le. zeros i le lt))

-- Where the main memory is loaded and the processor then halts, the run writes the texts of the
-- processor as it is then. If its main memory is zero from `2 ^ 16` on, a later run that reads the text of
-- the main memory as its memin begins with this main memory, word for word, with a unit of fuel for each
-- byte.
pub main-memout :
    (fuel : ℕ) (files : Inputs) (more : ℕ) {words : ℕ → ℕ} {q : Processor}
    → load_text fuel files.memin 0 (λ _. 0) ≡ some words
    → run fuel (initialize words files.imem) ≡ Outcome.halted q
    → ((i : ℕ) → 2 ^ 16 ≤ i → i < main_memory_size → q.memory.words i ≡ 0)
    → length (print_memory q.memory) ≤ more
    → (main fuel files ≡ written (teardown q))
      × (loaded : ℕ → ℕ) × (load_text more (teardown q).memout 0 (λ _. 0) ≡ some loaded)
      × ((i : ℕ) → i < main_memory_size → loaded i ≡ q.memory.words i)
unfolding teardown
main-memout fuel files more {words} {q} loads halts zeros enough =
    let start = initialize-HoldsWords words files.imem (
      subst IsWordMemory loads
        (load_text-IsWordMemory fuel files.memin 0 (λ _. 0) (λ _. omega arith))) in
    let (loaded, ends, is) =
      printed_lem q.memory more
        (run-HoldsWords fuel (initialize words files.imem) start halts).memory zeros enough in
    (main-written fuel files loads halts, loaded, ends, is)
