-- ===== src/Assembler/Labels.antt =====
-- The loop of asm.c that puts the addresses of labels into the instructions that name them.
use multicore_proccessor.Common.{
  ℕ, zero, suc, ◌+◌, bit_or, Bool, true, false, Option, none, some, [], ◌∷◌, if◌then◌else◌, update,
}
use multicore_proccessor.Text.Bytes.{Bytes, equal}
use multicore_proccessor.Assembler.Result.{Result, ok, exit, ◌>>=◌}
use multicore_proccessor.Assembler.State.{Assembler, imem_size}

-- The loop over `i`, of which `n` rounds are left: the first row of `labels` that is equal.
unfoldable pub find_label : ℕ → ℕ → (ℕ → Bytes) → Bytes → Option ℕ
unfolding equal
find_label zero i labels name = none
find_label (suc n) i labels name =
    let rest = find_label n (i + 1) labels name in if equal name (labels i) then some i else rest

abbrev pub is_nil : Bytes → Bool
is_nil [] = true
is_nil (_ ∷ _) = false

unfoldable pub resolve : (ℕ → ℕ) → ℕ → Option ℕ → Result (ℕ → ℕ)
resolve imem pc none = exit
resolve imem pc (some i) = ok (update imem pc (bit_or (imem pc) i))

-- One round, on the instruction memory.
unfoldable pub fix_label : Assembler → ℕ → (ℕ → ℕ) → Result (ℕ → ℕ)
unfolding resolve find_label
fix_label s pc imem =
    if is_nil (s.jumplabels pc)
    then ok imem
    else resolve imem pc (find_label imem_size 0 s.labels (s.jumplabels pc))

-- The loop from `pc` on, of which `n` rounds are left.
unfoldable pub fix_labels : ℕ → ℕ → Assembler → (ℕ → ℕ) → Result (ℕ → ℕ)
unfolding fix_label
fix_labels zero pc s imem = ok imem
fix_labels (suc n) pc s imem = fix_label s pc imem >>= λ fixed. fix_labels n (pc + 1) s fixed
