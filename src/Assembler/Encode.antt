-- ===== src/Assembler/Encode.antt =====
-- The instruction word that asm.c puts together, against the bit-fields that
-- Interface/include/Helpers.h takes it apart by.
use multicore_proccessor.Common.{ℕ, ◌+◌, ◌*◌, ◌^◌, ◌<◌, ◌≡◌, ap, ◌∙◌, bit_or, bit_or_fields, arith}
use multicore_proccessor.Instruction
use multicore_proccessor.Assembler.Line.{encode}

module _ (op rd rs rt imm : ℕ) (rd_fits : rd < 16) (rs_fits : rs < 16) (rt_fits : rt < 16)
    (imm_fits : imm < 2 ^ 12) where
  -- The fields do not overlap: `|` adds them.
  encode-sum : encode op rd rs rt imm ≡ (((op * 16 + rd) * 16 + rs) * 16 + rt) * 2 ^ 12 + imm
  unfolding encode
  encode-sum =
      let first : bit_or (op * 2 ^ 24) (rd * 2 ^ 20) ≡ (op * 16 + rd) * 2 ^ 20 =
        bit_or_fields 24 op (rd * 2 ^ 20) (omega arith) ∙ omega arith in
      let second : bit_or ((op * 16 + rd) * 2 ^ 20) (rs * 2 ^ 16)
          ≡ ((op * 16 + rd) * 16 + rs) * 2 ^ 16 =
        bit_or_fields 20 (op * 16 + rd) (rs * 2 ^ 16) (omega arith) ∙ omega arith in
      let third : bit_or (((op * 16 + rd) * 16 + rs) * 2 ^ 16) (rt * 2 ^ 12)
          ≡ (((op * 16 + rd) * 16 + rs) * 16 + rt) * 2 ^ 12 =
        bit_or_fields 16 ((op * 16 + rd) * 16 + rs) (rt * 2 ^ 12) (omega arith) ∙ omega arith in
      ap (λ (x : ℕ). bit_or (bit_or (bit_or x (rs * 2 ^ 16)) (rt * 2 ^ 12)) imm) first
      ∙ ap (λ (x : ℕ). bit_or (bit_or x (rt * 2 ^ 12)) imm) second
      ∙ ap (λ (x : ℕ). bit_or x imm) third
      ∙ bit_or_fields 12 (((op * 16 + rd) * 16 + rs) * 16 + rt) imm imm_fits

  -- The simulator finds in the word the fields that the assembler has put there.
  pub encode-fields :
      op < 2 ^ 8
      → let command = encode op rd rs rt imm in
        (Instruction.opcode command ≡ op)
        × (Instruction.rd command ≡ rd)
        × (Instruction.rs command ≡ rs)
        × (Instruction.rt command ≡ rt)
        × (Instruction.immediate command ≡ imm)
        × (command < 2 ^ 32)
  encode-fields fits =
      let e = encode-sum in
      (
        omega (arith, e),
        omega (arith, e),
        omega (arith, e),
        omega (arith, e),
        omega (arith, e),
        omega (arith, e),
      )

-- Every instruction word is put together of its fields.
pub encode_fields-all :
    (command : ℕ)
    → command < 2 ^ 32
    → encode
        (Instruction.opcode command)
        (Instruction.rd command)
        (Instruction.rs command)
        (Instruction.rt command)
        (Instruction.immediate command)
      ≡ command
encode_fields-all command fits =
    encode-sum (Instruction.opcode command) (Instruction.rd command) (Instruction.rs command)
      (Instruction.rt command) (Instruction.immediate command) (omega arith) (omega arith)
      (omega arith) (omega arith)
    ∙ omega arith
