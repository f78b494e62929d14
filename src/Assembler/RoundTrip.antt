-- ===== src/Assembler/RoundTrip.antt =====
-- An instruction that is written out and assembled by asm.c.
use multicore_proccessor.Common.{
  ℕ, ◌+◌, ◌%◌, ◌^◌, ◌<◌, ◌≡◌, ◌≢◌, refl, ap, ◌∙◌, Bool, true, false, some, [], ◌∷◌, ◌++◌, arith,
  ◌==◌, if◌then◌else◌, update,
}
use multicore_proccessor.Text.Bytes.{Bytes, codes, equal, has, strtok}
use multicore_proccessor.Text.Print.{hex_word}
use multicore_proccessor.Text.Tokens.{
  is_free, is_free-append, is_free_weaken, before_free, has_free,
}
use multicore_proccessor.Assembler.Result.{ok, ◌>>=◌}
use multicore_proccessor.Assembler.Names.{find_op}
use multicore_proccessor.Assembler.State.{Assembler, imem_size}
use multicore_proccessor.Assembler.Spelling.{
  is_mark, op_text, reg_text, IsName, op_text-IsName, reg_text-IsName, hex_word-free,
}
use multicore_proccessor.Instruction
use multicore_proccessor.Assembler.Encode.{encode-fields}
use multicore_proccessor.Assembler.Operands.{
  operand, last_operand, assembled, strtok-IsName, with_token-some, operands-assembled,
}
use multicore_proccessor.Assembler.Line.{
  is_delimiter, with_token, encode, operands, instruction, statement, save_label, assemble_text,
  assemble_line,
}

-- `add $r2, $zero, $imm, 0x00000005`: each register by its name or by the alternative.
abbrev pub instruction_text : ℕ → Bytes → Bytes → Bytes → ℕ → Bytes
instruction_text op rd rs rt imm =
    op_text op ++ b' ' ∷ operand rd (operand rs (operand rt (last_operand imm)))

abbrev is_hash : ℕ → Bool
is_hash c = c == b'#'

no_hash : (s : Bytes) → is_free is_mark s ≡ true → is_free is_hash s ≡ true
no_hash s = is_free_weaken is_mark is_hash s (λ c h. ground arith)

operand-no_hash :
    (name rest : Bytes)
    → IsName name
    → is_free is_hash rest ≡ true
    → is_free is_hash (operand name rest) ≡ true
unfolding is_free
operand-no_hash name rest n h =
    is_free-append is_hash name (b',' ∷ b' ' ∷ rest) (no_hash name n.free) h

last_operand-no_hash : (imm : ℕ) → is_free is_hash (last_operand imm) ≡ true
unfolding is_free
last_operand-no_hash imm =
    is_free-append is_hash (hex_word imm) (b'\n' ∷ []) (no_hash (hex_word imm) (hex_word-free imm))
      refl

no_colon : (s : Bytes) → is_free is_mark s ≡ true → has b':' s ≡ false
no_colon s h = has_free b':' s (is_free_weaken is_mark (λ c. c == b':') s (λ c g. ground arith) h)

statement-op :
    (s : Assembler) (op : ℕ) (p rest : Bytes)
    → equal p (codes ".word") ≡ false
    → find_op p ≡ some op
    → statement s p rest ≡ operands s op rest
unfolding statement instruction
statement-op s op p rest h f = ground arith

assemble_text-statement :
    (s : Assembler) (text : Bytes) {p rest : Bytes}
    → strtok is_delimiter text ≡ some (p, rest)
    → has b':' p ≡ false
    → assemble_text s text ≡ statement s p rest
unfolding assemble_text
assemble_text-statement s text {p = p} {rest = rest} found plain =
    with_token-some s text _ found
    ∙ ap
        (λ (b : Bool).
          if b
          then (save_label s p >>= λ t. with_token t rest λ q more. statement t q more)
          else statement s p rest)
        plain

-- An instruction that is written by its name, its registers, by either of their names, and its
-- immediate in hexadecimal, is assembled at `pc` to the word of these fields.
assemble_line-instruction_text :
    (s : Assembler) (op rd rs rt imm : ℕ) (a b c : Bool)
    → op < 21
    → rd < 16
    → rs < 16
    → rt < 16
    → imm < 2 ^ 32
    → s.pc < imem_size
    → assemble_line s (instruction_text op (reg_text a rd) (reg_text b rs) (reg_text c rt) imm)
      ≡ ok (assembled s op rd rs rt imm)
unfolding assemble_line
assemble_line-instruction_text s op rd rs rt imm a b c op_lt rd_lt rs_lt rt_lt fits room =
    let (op_name, directive, found) = op_text-IsName op op_lt in
    let rd_is = reg_text-IsName a rd rd_lt in
    let rs_is = reg_text-IsName b rs rs_lt in
    let rt_is = reg_text-IsName c rt rt_lt in
    let rest =
      operand (reg_text a rd)
        (operand (reg_text b rs) (operand (reg_text c rt) (last_operand imm))) in
    let clean : is_free is_hash (op_text op ++ b' ' ∷ rest) ≡ true =
      is_free-append is_hash (op_text op) (b' ' ∷ rest) (no_hash (op_text op) op_name.free) (
        unfold is_free in
        operand-no_hash (reg_text a rd) _ rd_is.0 (
          operand-no_hash (reg_text b rs) _ rs_is.0
            (operand-no_hash (reg_text c rt) _ rt_is.0 (last_operand-no_hash imm)))) in
    ap (assemble_text s) (before_free is_hash (op_text op ++ b' ' ∷ rest) clean)
    ∙ assemble_text-statement s (op_text op ++ b' ' ∷ rest)
        (strtok-IsName (op_text op) b' ' rest op_name refl) (no_colon (op_text op) op_name.free)
    ∙ statement-op s op (op_text op) rest directive found
    ∙ operands-assembled s op (reg_text a rd) (reg_text b rs) (reg_text c rt) imm rd_is rs_is rt_is
        fits room

-- A line with the name of an operation, three registers, each by either of its names, and an immediate
-- of 32 bits in hexadecimal is assembled where `PC` is in the memory: the simulator finds in the word
-- at `PC` the fields that were written, the immediate cut to 12 bits; `PC` is one more, and the other
-- instructions, the data memory and the labels stay as they were.
pub assemble_line-fields :
    (s : Assembler) (op rd rs rt imm : ℕ) (a b c : Bool)
    → op < 21
    → rd < 16
    → rs < 16
    → rt < 16
    → imm < 2 ^ 32
    → s.pc < imem_size
    → (t : Assembler) × (assemble_line s
          (instruction_text op (reg_text a rd) (reg_text b rs) (reg_text c rt) imm)
        ≡ ok t)
      × (t.pc ≡ s.pc + 1)
      × (Instruction.opcode (t.imem s.pc) ≡ op)
      × (Instruction.rd (t.imem s.pc) ≡ rd)
      × (Instruction.rs (t.imem s.pc) ≡ rs)
      × (Instruction.rt (t.imem s.pc) ≡ rt)
      × (Instruction.immediate (t.imem s.pc) ≡ imm % 2 ^ 12)
      × ((i : ℕ) → i ≢ s.pc → t.imem i ≡ s.imem i)
      × (t.dmem ≡ s.dmem)
      × (t.labels ≡ s.labels)
      × (t.jumplabels ≡ s.jumplabels)
assemble_line-fields s op rd rs rt imm a b c op_lt rd_lt rs_lt rt_lt fits room =
    let command = encode op rd rs rt (imm % 2 ^ 12) in
    let stored : update s.imem s.pc command s.pc ≡ command = ground arith in
    let (f_op, f_rd, f_rs, f_rt, f_imm, _) =
      encode-fields op rd rs rt (imm % 2 ^ 12) rd_lt rs_lt rt_lt (omega arith) (omega arith) in
    (
      assembled s op rd rs rt imm,
      assemble_line-instruction_text s op rd rs rt imm a b c op_lt rd_lt rs_lt rt_lt fits room,
      refl,
      ap Instruction.opcode stored ∙ f_op,
      ap Instruction.rd stored ∙ f_rd,
      ap Instruction.rs stored ∙ f_rs,
      ap Instruction.rt stored ∙ f_rt,
      ap Instruction.immediate stored ∙ f_imm,
      λ i h. ground arith,
      refl,
      refl,
      refl,
    )
