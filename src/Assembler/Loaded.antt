-- ===== src/Assembler/Loaded.antt =====
-- The instruction memory that the simulator loads from the text that asm.c writes; the names that are
-- cut; and the fuel of the loop over the lines.
use multicore_proccessor.Common.{
  ℕ, zero, suc, ◌^◌, ◌≤◌, ◌<◌, ◌≡◌, refl, sym, ap, ◌∙◌, fun_ext, [], ◌∷◌, arith, ltb, if◌then◌else◌,
  length, bit_or-lt, ◌⊎◌, inl, inr,
}
use mathlib.Core.Path.{subst}
use multicore_proccessor.Text.Bytes.{Bytes}
use multicore_proccessor.Text.Print.{print_words}
use multicore_proccessor.Core.Imem.{init_memory, init_memory-print_words}
use multicore_proccessor.Assembler.Result.{Result, ok, ◌>>=◌, >>=-eq-ok, ok_eq}
use multicore_proccessor.Assembler.State.{Assembler, initial, imem_size}
use multicore_proccessor.Assembler.Line.{assemble_line}
use multicore_proccessor.Assembler.Labels.{fix_labels}
use multicore_proccessor.Assembler.Whole.{fgets, assemble_lines, used, Output, output, assemble}
use multicore_proccessor.Assembler.Ready.{IsReady}
use multicore_proccessor.Assembler.Invariant.{assemble_lines-IsReady}
use multicore_proccessor.Assembler.Resolve.{IsResolved, fix_labels-IsResolved}

used-bounds :
    (n : ℕ) (words : ℕ → ℕ)
    → (used n words ≤ n) × ((i : ℕ) → used n words ≤ i → i < n → words i ≡ 0)
unfolding used
used-bounds zero words = (omega arith, λ i le lt. absurd (omega (arith, lt)))
used-bounds (suc n) words =
    let (le, above) = used-bounds n words in
    (ground (arith, le), λ i l lt. ground (arith, l, lt, above i))

fgets-shorter : (n : ℕ) (s : Bytes) → length (fgets n s).1 ≤ length s
unfolding fgets
fgets-shorter zero s = omega arith
fgets-shorter (suc n) [] = omega arith
fgets-shorter (suc n) (c ∷ cs) = ground (arith, fgets-shorter n cs)

-- A round takes a byte at least.
fgets-cons : (n c : ℕ) (cs : Bytes) → length (fgets (suc n) (c ∷ cs)).1 ≤ length cs
unfolding fgets
fgets-cons n c cs = ground (arith, fgets-shorter n cs)

le_before : {a b n : ℕ} → a ≤ b → suc b ≤ suc n → a ≤ n
le_before h k = omega (arith, h, k)

-- Two amounts of fuel that have a unit for each byte of the source bring the same: the loop has ended
-- with either.
assemble_lines-agree :
    (fuel more : ℕ) (s : Assembler) (source : Bytes)
    → length source ≤ fuel
    → length source ≤ more
    → assemble_lines fuel s source ≡ assemble_lines more s source
unfolding assemble_lines
assemble_lines-agree fuel more s [] h k = refl
assemble_lines-agree zero more s (c ∷ cs) h k = absurd (omega (arith, h))
assemble_lines-agree (suc fuel) zero s (c ∷ cs) h k = absurd (omega (arith, k))
assemble_lines-agree (suc fuel) (suc more) s (c ∷ cs) h k =
    let shorter = fgets-cons 498 c cs in
    ap (λ (f : Assembler → Result Assembler). assemble_line s (fgets 499 (c ∷ cs)).0 >>= f)
      (fun_ext λ t.
        assemble_lines-agree fuel more t (fgets 499 (c ∷ cs)).1 (le_before shorter h)
          (le_before shorter k))

fixed_fits :
    (s : Assembler) (fixed : ℕ → ℕ) (i : ℕ)
    → IsReady s
    → IsResolved s s.imem fixed i
    → fixed i < 2 ^ 32
fixed_fits s fixed i h (inl (_, e)) = omega (arith, e, h.imem i)
fixed_fits s fixed i h (inr (_, j, (_, lt, _, _), e)) =
    subst (λ (x : ℕ). x < 2 ^ 32) (sym e) (bit_or-lt 32 (s.imem i) j (h.imem i) (omega (arith, lt)))

kept_or_zero : (i u w : ℕ) → (u ≤ i → w ≡ 0) → (if ltb i u then w else 0) ≡ w
kept_or_zero i u w h = ground arith

zero_from : (n u i w : ℕ) → (u ≤ i → i < n → w ≡ 0) → (n ≤ i → w ≡ 0) → u ≤ i → w ≡ 0
zero_from n u i w h k le = ground arith

-- The memory that is loaded from what is printed of a memory of `n` words.
loaded_back :
    (n : ℕ) (words : ℕ → ℕ)
    → n ≤ imem_size
    → ((i : ℕ) → words i < 2 ^ 32)
    → ((i : ℕ) → n ≤ i → words i ≡ 0)
    → (i : ℕ) → (init_memory (print_words (used n words) 0 words)).1 i ≡ words i
loaded_back n words le fits zeros i =
    let (below, above) = used-bounds n words in
    let (_, loaded) =
      init_memory-print_words words fits (used n words) (omega (arith, below, le)) in
    loaded i
    ∙ kept_or_zero i (used n words) (words i)
        (zero_from n (used n words) i (words i) (above i) (zeros i))

below_or_above : (i n : ℕ) → (i < n) ⊎ (n ≤ i)
below_or_above i n = ground arith

every_fits :
    (s : Assembler) (fixed : ℕ → ℕ)
    → IsReady s
    → ((pc : ℕ) → pc < imem_size → IsResolved s s.imem fixed pc)
    → ((pc : ℕ) → imem_size ≤ pc → fixed pc ≡ s.imem pc)
    → ((i : ℕ) → fixed i < 2 ^ 32) × ((i : ℕ) → imem_size ≤ i → fixed i ≡ 0)
every_fits s fixed h resolved kept = (
  λ i. elim (below_or_above i imem_size) [
    | inl lt ↦ fixed_fits s fixed i h (resolved i lt)
    | inr le ↦ omega (arith, kept i le, h.imem i)
  ],
  λ i le. kept i le ∙ h.above i (omega (arith, h.pc, le)),
)

printed_back :
    (fuel : ℕ) (source : Bytes) (s : Assembler) (fixed : ℕ → ℕ)
    → assemble_lines fuel initial source ≡ ok s
    → fix_labels imem_size 0 s s.imem ≡ ok fixed
    → (i : ℕ) → (init_memory (print_words (used imem_size fixed) 0 fixed)).1 i ≡ fixed i
printed_back fuel source s fixed lines labels =
    let (resolved, kept) = fix_labels-IsResolved s labels in
    let (fits, zeros) =
      every_fits s fixed (assemble_lines-IsReady fuel source lines) resolved kept in
    loaded_back imem_size fixed (omega arith) fits zeros

-- Where a program is assembled, the instruction memory that a core loads from the text that is written
-- is, word for word, the one that the assembler has after the last line, with its labels resolved.
pub assemble-init_memory :
    (source : Bytes) {o : Output}
    → assemble source ≡ ok o
    → (s : Assembler) × (fixed : ℕ → ℕ) × (assemble_lines (length source) initial source ≡ ok s)
      × (fix_labels imem_size 0 s s.imem ≡ ok fixed)
      × ((i : ℕ) → (init_memory o.imem_text).1 i ≡ fixed i)
unfolding assemble output
assemble-init_memory source {o = o} h =
    let (s, lines, more) = >>=-eq-ok (assemble_lines (length source) initial source) _ h in
    let (fixed, labels, last) = >>=-eq-ok (fix_labels imem_size 0 s s.imem) _ more in
    (
      s,
      fixed,
      lines,
      labels,
      subst (λ (p : Output). (i : ℕ) → (init_memory p.imem_text).1 i ≡ fixed i)
          (ok_eq (output fixed s.dmem) o last)
          (printed_back (length source) source s fixed lines labels),
    )
