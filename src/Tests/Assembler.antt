-- ===== src/Tests/Assembler.antt =====
-- Runs of, and witnesses about, src/Assembler/ca2025asm/ca2025asm/asm.c.
use multicore_proccessor.Common.{
  ℕ, ◌≡◌, ◌≢◌, ◌⊎◌, refl, ap, ◌∙◌, ◌^◌, ◌%◌, ◌<◌, ◌≤◌, true, false, arith, length,
}
use multicore_proccessor.Instruction
use multicore_proccessor.Text.Bytes.{Bytes, codes}
use multicore_proccessor.Text.Scan.{digit}
use multicore_proccessor.Text.Print.{print_words}
use multicore_proccessor.Core.Imem.{init_memory}
use multicore_proccessor.Assembler.Result.{Result, ok, exit, undefined, ◌>>=◌}
use multicore_proccessor.Assembler.State.{Assembler, initial, imem_size}
use multicore_proccessor.Assembler.Line.{assemble_line}
use multicore_proccessor.Assembler.Labels.{fix_labels}
use multicore_proccessor.Assembler.Resolve.{IsResolved, IsDangling, fix_labels_cases}
use multicore_proccessor.Assembler.Spelling.{reg_text}
use multicore_proccessor.Assembler.RoundTrip.{instruction_text, assemble_line-fields}
use multicore_proccessor.Assembler.Whole.{output, assemble, assemble_lines}
use multicore_proccessor.Assembler.Ready.{IsReady}
use multicore_proccessor.Assembler.Invariant.{assemble_lines-IsReady}
use multicore_proccessor.Assembler.Loaded.{assemble-init_memory}

abbrev jump_program : Bytes
jump_program =
    codes
      "start: add $r2, $zero, $imm, 5\nbeq $imm, $zero, $zero, start\nhalt $zero, $zero, $zero, 0\n"

abbrev imem_of : Bytes → Result Bytes
imem_of source = assemble_lines 200 initial source >>= λ s.
    fix_labels imem_size 0 s s.imem >>= λ imem. ok (print_words 3 0 imem)

jump_runs : imem_of jump_program ≡ ok (codes "00201005\n09100000\n14000000\n")
unfolding assemble_lines fix_labels print_words digit
jump_runs = refl

-- A jump to a label that begins with an 'n' goes to 0, and no message says so.
abbrev cut_program : Bytes
cut_program = codes "halt $zero, $zero, $zero, 0\nnext: beq $imm, $zero, $zero, next\n"

cut_runs : imem_of cut_program ≡ ok (codes "14000000\n09100000\n00000000\n")
unfolding assemble_lines fix_labels print_words digit
cut_runs = refl

-- An empty line has the token "\n", which is no operation.
empty_line_exits : assemble_line initial (codes "\n") ≡ exit
unfolding assemble_line
empty_line_exits = refl

abbrev state_of : Result Assembler → Assembler
state_of (ok s) = s
state_of exit = initial
state_of undefined = initial

abbrev jump_state : Assembler
jump_state = state_of (assemble_lines 200 initial jump_program)

jump_state_ok : assemble_lines 200 initial jump_program ≡ ok jump_state
unfolding assemble_lines digit
jump_state_ok = refl

jump_lines_ok : assemble_lines (length jump_program) initial jump_program ≡ ok jump_state
unfolding assemble_lines digit
jump_lines_ok = refl

assemble_lines-IsReady_example : IsReady jump_state
assemble_lines-IsReady_example =
    assemble_lines-IsReady 200 jump_program {s = jump_state} jump_state_ok

fix_labels_cases_example :
    ((fixed : ℕ → ℕ) × (fix_labels imem_size 0 jump_state jump_state.imem ≡ ok fixed)
      × ((pc : ℕ) → pc < imem_size → IsResolved jump_state jump_state.imem fixed pc)
      × ((pc : ℕ) → imem_size ≤ pc → fixed pc ≡ jump_state.imem pc))
    ⊎ ((fix_labels imem_size 0 jump_state jump_state.imem ≡ exit)
        × (pc : ℕ) × (pc < imem_size)
        × IsDangling jump_state pc)
fix_labels_cases_example = fix_labels_cases jump_state

abbrev memory_of : Result (ℕ → ℕ) → ℕ → ℕ
memory_of (ok memory) = memory
memory_of exit = λ _. 0
memory_of undefined = λ _. 0

abbrev jump_fixed : ℕ → ℕ
jump_fixed = memory_of (fix_labels imem_size 0 jump_state jump_state.imem)

jump_fixed_ok : fix_labels imem_size 0 jump_state jump_state.imem ≡ ok jump_fixed
unfolding assemble_lines fix_labels digit
jump_fixed_ok = refl

jump_output_ok : assemble jump_program ≡ ok (output jump_fixed jump_state.dmem)
unfolding assemble
jump_output_ok =
    ap
      (λ (r : Result Assembler).
        r >>= λ s. fix_labels imem_size 0 s s.imem >>= λ imem. ok (output imem s.dmem))
      jump_lines_ok
    ∙ ap (λ (r : Result (ℕ → ℕ)). r >>= λ imem. ok (output imem jump_state.dmem)) jump_fixed_ok

assemble-init_memory_example :
    let o = output jump_fixed jump_state.dmem in
    (s : Assembler) × (fixed : ℕ → ℕ) × (assemble_lines (length jump_program) initial jump_program
      ≡ ok s)
    × (fix_labels imem_size 0 s s.imem ≡ ok fixed)
    × ((i : ℕ) → (init_memory o.imem_text).1 i ≡ fixed i)
assemble-init_memory_example =
    assemble-init_memory jump_program {o = output jump_fixed jump_state.dmem} jump_output_ok

abbrev written : Bytes
written = instruction_text 0 (reg_text true 2) (reg_text false 0) (reg_text false 1) 0x1005

assemble_line-fields_example :
    (t : Assembler) × (assemble_line initial written ≡ ok t)
    × (t.pc ≡ 1)
    × (Instruction.opcode (t.imem 0) ≡ 0)
    × (Instruction.rd (t.imem 0) ≡ 2)
    × (Instruction.rs (t.imem 0) ≡ 0)
    × (Instruction.rt (t.imem 0) ≡ 1)
    × (Instruction.immediate (t.imem 0) ≡ 5)
    × ((i : ℕ) → i ≢ 0 → t.imem i ≡ 0)
    × (t.dmem ≡ initial.dmem)
    × (t.labels ≡ initial.labels)
    × (t.jumplabels ≡ initial.jumplabels)
assemble_line-fields_example =
    assemble_line-fields initial 0 2 0 1 0x1005 true false false (omega arith) (omega arith)
      (omega arith) (omega arith) (omega arith) (omega arith)

abbrev powers : ℕ → ℕ
powers i = 2 ^ i % 2 ^ 32
