-- ===== src/Assembler/Invariant.antt =====
-- A line of a program, and hence a whole program, keeps what holds of the variables of asm.c.
use multicore_proccessor.Common.{ℕ, zero, suc, ◌<◌, ◌≡◌, refl, none, some, [], ◌∷◌, arith, ◌==◌}
use mathlib.Core.Path.{subst}
use multicore_proccessor.Text.Bytes.{Bytes, codes, equal, before, has}
use multicore_proccessor.Text.Tokens.{is_free}
use multicore_proccessor.Assembler.Result.{ok, exit}
use multicore_proccessor.Assembler.Names.{find_op}
use multicore_proccessor.Assembler.State.{Assembler, initial}
use multicore_proccessor.Assembler.Line.{
  immediate, operands, instruction, statement, save_label, assemble_text, assemble_line,
}
use multicore_proccessor.Assembler.Whole.{assemble_lines, fgets}
use multicore_proccessor.Assembler.Bounds.{Holds, Holds->>=, find_op-lt}
use multicore_proccessor.Assembler.Ready.{IsReady, with_token-Holds, with_register-Holds}
use multicore_proccessor.Assembler.Stores.{
  word_directive-IsReady, save_label-IsReady, immediate-IsReady, emit-IsReady, if-Holds,
}

operands-IsReady :
    (s : Assembler) (op : ℕ) (rest : Bytes)
    → op < 21
    → IsReady s
    → Holds IsReady (operands s op rest)
unfolding operands
operands-IsReady s op rest op_lt h = with_register-Holds IsReady s rest _ h λ rd r1 rd_lt.
    with_register-Holds IsReady s r1 _ h λ rs r2 rs_lt.
      with_register-Holds IsReady s r2 _ h λ rt r3 rt_lt. with_token-Holds IsReady s r3 _ h λ p _.
        Holds->>= IsReady IsReady (immediate s p) _ (immediate-IsReady s p h)
          λ t ht. emit-IsReady t op rd rs rt op_lt rd_lt rs_lt rt_lt ht

instruction-IsReady :
    (s : Assembler) (p rest : Bytes) → IsReady s → Holds IsReady (instruction s p rest)
unfolding instruction
instruction-IsReady s p rest h =
    elim (find_op p)
        as (λ o.
          (find_op p ≡ o) → Holds IsReady (elim o [ none ↦ exit | some op ↦ operands s op rest ])) [
            | none ↦ λ e. tt
            | some op ↦ λ e. operands-IsReady s op rest (find_op-lt p op e) h
          ]
      refl

statement-IsReady :
    (s : Assembler) (p rest : Bytes) → IsReady s → Holds IsReady (statement s p rest)
unfolding statement
statement-IsReady s p rest h =
    if-Holds (equal p (codes ".word")) _ _ (word_directive-IsReady s rest h)
      (instruction-IsReady s p rest h)

assemble_text-IsReady :
    (s : Assembler) (text : Bytes) → IsReady s → Holds IsReady (assemble_text s text)
unfolding assemble_text
assemble_text-IsReady s text h = with_token-Holds IsReady s text _ h λ p rest.
    if-Holds (has b':' p) _ _
      (Holds->>= IsReady IsReady (save_label s p) _ (save_label-IsReady s p h)
        λ t ht. with_token-Holds IsReady t rest _ ht λ q more. statement-IsReady t q more ht)
      (statement-IsReady s p rest h)

assemble_line-IsReady :
    (s : Assembler) (line : Bytes) → IsReady s → Holds IsReady (assemble_line s line)
unfolding assemble_line
assemble_line-IsReady s line h = assemble_text-IsReady s (before (λ c. c == b'#') line) h

initial-IsReady : IsReady initial
unfolding is_free
initial-IsReady = record {
  pc = omega arith;
  imem = λ _. omega arith;
  dmem = λ _. omega arith;
  above = λ _ _. refl;
  jump = λ _. refl;
  label = λ _. omega arith;
  addr = tt;
  word = tt;
  imm = tt;
}

assemble_lines-Holds :
    (fuel : ℕ) (s : Assembler) (source : Bytes)
    → IsReady s
    → Holds IsReady (assemble_lines fuel s source)
unfolding assemble_lines
assemble_lines-Holds fuel s [] h = h
assemble_lines-Holds zero s (c ∷ cs) h = h
assemble_lines-Holds (suc fuel) s (c ∷ cs) h =
    Holds->>= IsReady IsReady (assemble_line s (fgets 499 (c ∷ cs)).0) _
      (assemble_line-IsReady s (fgets 499 (c ∷ cs)).0 h)
      λ t ht. assemble_lines-Holds fuel t (fgets 499 (c ∷ cs)).1 ht

-- Between any two lines of a program, the instruction counter is in the memory or at its end, the
-- words fit in 32 bits and are zero from the counter on, the labels fit in their rows, and no name of
-- a jump has one of the bytes 'n', 0xd and 0xa.
pub assemble_lines-IsReady :
    (fuel : ℕ) (source : Bytes) {s : Assembler}
    → assemble_lines fuel initial source ≡ ok s
    → IsReady s
assemble_lines-IsReady fuel source h =
    subst (Holds IsReady) h (assemble_lines-Holds fuel initial source initial-IsReady)
