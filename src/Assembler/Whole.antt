-- ===== src/Assembler/Whole.antt =====
-- `main` of asm.c, from the text of a program to the two texts that it writes.
use multicore_proccessor.Common.{ℕ, zero, suc, [], ◌∷◌, ◌==◌, if◌then◌else◌, length}
use multicore_proccessor.Text.Bytes.{Bytes}
use multicore_proccessor.Text.Print.{print_words}
use multicore_proccessor.Assembler.Result.{Result, ok, ◌>>=◌}
use multicore_proccessor.Assembler.State.{Assembler, initial, imem_size, dmem_size}
use multicore_proccessor.Assembler.Line.{assemble_line}
use multicore_proccessor.Assembler.Labels.{fix_labels}

-- `fgets`: the bytes up to a newline, it included, and `n` at most; and what is left of the file.
unfoldable pub fgets : ℕ → Bytes → Bytes × Bytes
fgets zero s = ([], s)
fgets (suc n) [] = ([], [])
fgets (suc n) (c ∷ cs) =
    let (line, rest) = fgets n cs in if c == 10 then (c ∷ [], cs) else (c ∷ line, rest)

-- The loop over the lines. A buffer of 500 bytes takes 499 of a line; what is left of a longer one is
-- a line of its own. Each round takes a byte at least, so `fuel` is the length of the file.
unfoldable pub assemble_lines : ℕ → Assembler → Bytes → Result Assembler
unfolding fgets assemble_line
assemble_lines fuel s [] = ok s
assemble_lines zero s (c ∷ cs) = ok s
assemble_lines (suc fuel) s (c ∷ cs) =
    let (line, rest) = fgets 499 (c ∷ cs) in
    assemble_line s line >>= λ t. assemble_lines fuel t rest

-- `last + 1`: the words of a memory up to the last that is not zero.
unfoldable pub used : ℕ → (ℕ → ℕ) → ℕ
used zero words = 0
used (suc n) words = let below = used n words in if words n == 0 then below else suc n

-- `fp_imemout` and `fp_dmemout` after the run
pub record Output : Type 0 where
  pub imem_text : Bytes
  pub dmem_text : Bytes

unfoldable pub output : (ℕ → ℕ) → (ℕ → ℕ) → Output
unfolding print_words used
output imem dmem = record {
  imem_text = print_words (used imem_size imem) 0 imem;
  dmem_text = print_words (used dmem_size dmem) 0 dmem;
}

unfoldable pub assemble : Bytes → Result Output
unfolding assemble_lines fix_labels output
assemble source = assemble_lines (length source) initial source >>= λ s.
    fix_labels imem_size 0 s s.imem >>= λ imem. ok (output imem s.dmem)
