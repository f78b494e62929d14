-- ===== src/Tests/Processor.antt =====
-- Whole runs of the processor of MulticoreProcessor.c.
use multicore_proccessor.Common.{
  ℕ, Option, none, some, List, [], ◌∷◌, ◌≡◌, refl, ◌==◌, if◌then◌else◌,
}
use multicore_proccessor.Processor.{Outcome, init, run}

abbrev halt_only : List ℕ
halt_only = 0x14000000 ∷ []

-- lw $r2, $zero, $imm, 3; halt
abbrev load_program : ℕ → List ℕ
load_program i = if i == 0 then 0x10201003 ∷ 0x14000000 ∷ [] else halt_only

abbrev register_of : Outcome → ℕ → ℕ → Option ℕ
register_of (Outcome.halted p) core reg = some ((p.cores core).pipeline.core_registers reg)
register_of Outcome.fault core reg = none
register_of (Outcome.running p) core reg = none

load_runs : register_of (run 60 (init (10 ∷ 11 ∷ 12 ∷ 13 ∷ []) load_program)) 0 2 ≡ some 13
unfolding run init
load_runs = refl

-- add $r2, $zero, $imm, 5; lw $r6, $zero, $imm, 4; add $r7, $zero, $imm, 1; add $r5, $r2, $r4, 0;
-- halt. The last addition is held in decode when the load misses, and is executed with a null
-- operation when the load has ended.
abbrev faulting_program : ℕ → List ℕ
faulting_program i =
    if i == 0
    then 0x00201005 ∷ 0x10601004 ∷ 0x00701001 ∷ 0x00524000 ∷ 0x14000000 ∷ []
    else halt_only

faulting_program_runs : run 60 (init (10 ∷ 11 ∷ 12 ∷ 13 ∷ 14 ∷ []) faulting_program) ≡ Outcome.fault
unfolding run init
faulting_program_runs = refl
