-- ===== src/Assembler/State.antt =====
-- The variables of asm.c.
use multicore_proccessor.Common.{ℕ, ◌^◌, Option, none, []}
use multicore_proccessor.Text.Bytes.{Bytes}

-- IMEM_SIZE and DMEM_SIZE of project.h
abbrev pub imem_size : ℕ
imem_size = 1024

abbrev pub dmem_size : ℕ
dmem_size = 2 ^ 21

-- The bytes of a row of `jumplabels` and `labels`, its zero included.
abbrev pub label_size : ℕ
label_size = 50

-- The memories hold the patterns of 32 bits of their `int`s. A local variable is `none` before it is
-- set.
pub record Assembler : Type 0 where
  pub imem : ℕ → ℕ
  pub dmem : ℕ → ℕ
  pub jumplabels : ℕ → Bytes
  pub labels : ℕ → Bytes
  pub pc : ℕ
  pub addr : Option ℕ
  pub word : Option ℕ
  pub imm : Option ℕ

abbrev pub initial : Assembler
initial = record {
  imem = λ _. 0;
  dmem = λ _. 0;
  jumplabels = λ _. [];
  labels = λ _. [];
  pc = 0;
  addr = none;
  word = none;
  imm = none;
}
