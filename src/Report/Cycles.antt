-- ===== src/Report/Cycles.antt =====
-- The count of cycles in the statistics of a core, and the lines of its trace.
use multicore_proccessor.Common.{
  ℕ, zero, suc, ◌+◌, ◌-◌, ◌/◌, ◌%◌, ◌^◌, ◌≡◌, refl, sym, ap, ◌∙◌, Bool, true, false, List, [], ◌∷◌,
  ◌++◌, arith, ◌==◌, ltb, if◌then◌else◌, length, u32, uint16_max,
}
use multicore_proccessor.Text.Bytes.{Bytes, codes}
use multicore_proccessor.Text.Print.{hex_digit, hex_digits, hex_word}
use multicore_proccessor.Text.Decimal.{decimal_digits, decimal, signed_word, hex_padded}
use multicore_proccessor.Pipeline.State.{pipeline_size}
use multicore_proccessor.Core.{Core, TraceLine}
use multicore_proccessor.Core.Trace.{IsTraced}
use multicore_proccessor.Report.{
  statistic, later_statistics, print_statistics, write_stages, write_registers, write_trace,
  trace_text,
}
use multicore_proccessor.Processor.{Processor, Outcome, init, run}
use multicore_proccessor.Processor.Trace.{halted_run-IsTraced}

-- The lines of a text.
unfoldable pub lines : Bytes → ℕ
lines [] = 0
lines (c ∷ cs) = (if c == b'\n' then 1 else 0) + lines cs

lines-append : (a b : Bytes) → lines (a ++ b) ≡ lines a + lines b
unfolding lines
lines-append [] b = omega arith
lines-append (c ∷ a) b = omega (arith, lines-append a b)

hex_digit-plain : (d : ℕ) → (hex_digit d == b'\n') ≡ false
unfolding hex_digit
hex_digit-plain d = ground arith

lines-cons : (c : ℕ) (cs : Bytes) → (c == b'\n') ≡ false → lines (c ∷ cs) ≡ lines cs
unfolding lines
lines-cons c cs h = ground arith

lines-hex_digits : (n v : ℕ) → lines (hex_digits n v) ≡ 0
unfolding hex_digits lines
lines-hex_digits zero v = refl
lines-hex_digits (suc n) v =
    lines-cons (hex_digit (v / 16 ^ n % 16)) (hex_digits n v) (hex_digit-plain _)
    ∙ lines-hex_digits n v

lines-decimal_digits : (n v : ℕ) → lines (decimal_digits n v) ≡ 0
unfolding decimal_digits lines
lines-decimal_digits zero v = refl
lines-decimal_digits (suc n) v =
    lines-cons (b'0' + v / 10 ^ n % 10) (decimal_digits n v) (ground arith)
    ∙ lines-decimal_digits n v

lines-if : (b : Bool) (x y : Bytes) → lines x ≡ 0 → lines y ≡ 0 → lines (if b then x else y) ≡ 0
lines-if true x y h k = h
lines-if false x y h k = k

lines-decimal : (more n v : ℕ) → lines (decimal more n v) ≡ 0
unfolding decimal
lines-decimal zero n v = lines-decimal_digits n v
lines-decimal (suc more) n v =
    lines-if (ltb v (10 ^ n)) (decimal_digits n v) (decimal more (n + 1) v)
      (lines-decimal_digits n v) (lines-decimal more (n + 1) v)

lines-hex_padded : (more n v : ℕ) → lines (hex_padded more n v) ≡ 0
unfolding hex_padded
lines-hex_padded zero n v = lines-hex_digits n v
lines-hex_padded (suc more) n v =
    lines-if (ltb v (16 ^ n)) (hex_digits n v) (hex_padded more (n + 1) v) (lines-hex_digits n v)
      (lines-hex_padded more (n + 1) v)

lines-signed_word : (v : ℕ) → lines (signed_word v) ≡ 0
unfolding signed_word
lines-signed_word v =
    lines-if (ltb v (2 ^ 31)) (decimal 9 1 v) (b'-' ∷ decimal 9 1 (2 ^ 32 - v))
      (lines-decimal 9 1 v)
      (lines-cons b'-' (decimal 9 1 (2 ^ 32 - v)) refl ∙ lines-decimal 9 1 (2 ^ 32 - v))

lines-write_registers : (n i : ℕ) (registers : ℕ → ℕ) → lines (write_registers n i registers) ≡ 0
unfolding write_registers hex_word
lines-write_registers zero i registers = unfold lines in refl
lines-write_registers (suc n) i registers =
    lines-append (hex_digits 8 (registers i)) (b' ' ∷ write_registers n (i + 1) registers)
    ∙ omega (
      arith,
      lines-hex_digits 8 (registers i),
      lines-cons b' ' (write_registers n (i + 1) registers) refl,
      lines-write_registers n (i + 1) registers,
    )

lines-write_stages : (n stage : ℕ) (pc : ℕ → ℕ) → lines (write_stages n stage pc) ≡ 0
unfolding write_stages
lines-write_stages zero stage pc = unfold lines in refl
lines-write_stages (suc n) stage pc =
    lines-append
      (if pc stage == uint16_max then codes "--- " else hex_padded 1 3 (pc stage) ++ b' ' ∷ [])
      (write_stages n (stage + 1) pc)
    ∙ omega (
      arith,
      lines-if (pc stage == uint16_max) (codes "--- ") (hex_padded 1 3 (pc stage) ++ b' ' ∷ [])
          (unfold lines in refl)
          (lines-append (hex_padded 1 3 (pc stage)) (b' ' ∷ [])
            ∙ ap (λ (x : ℕ). x + lines (b' ' ∷ [])) (lines-hex_padded 1 3 (pc stage))
            ∙ unfold lines in refl),
      lines-write_stages n (stage + 1) pc,
    )

line_sum :
    {a b c d e f g : ℕ} → a ≡ 0 → b ≡ c → c ≡ d + e → d ≡ 0 → e ≡ f + g → f ≡ 0 → g ≡ 1 → a + b ≡ 1
line_sum p q r s t u v = omega (arith, p, q, r, s, t, u, v)

lines-write_trace : (l : TraceLine) → lines (write_trace l) ≡ 1
unfolding write_trace
lines-write_trace l =
    let registers = write_registers 14 2 l.registers in
    let stages = write_stages pipeline_size 0 l.stage_pc in
    lines-append (signed_word l.cycle) (b' ' ∷ (stages ++ (registers ++ b'\n' ∷ [])))
    ∙ line_sum (lines-signed_word l.cycle)
        (lines-cons b' ' (stages ++ (registers ++ b'\n' ∷ [])) refl)
        (lines-append stages (registers ++ b'\n' ∷ []))
        (lines-write_stages pipeline_size 0 l.stage_pc) (lines-append registers (b'\n' ∷ []))
        (lines-write_registers 14 2 l.registers) (unfold lines in refl)

-- The text of a trace has a line for each cycle.
lines-trace_text : (ls : List TraceLine) → lines (trace_text ls) ≡ length ls
unfolding trace_text
lines-trace_text [] = unfold lines in refl
lines-trace_text (l ∷ ls) =
    lines-append (trace_text ls) (write_trace l)
    ∙ omega (arith, lines-trace_text ls, lines-write_trace l)

pub cycles_line :
    (c : Core)
    → IsTraced c
    → (rest : Bytes) × (print_statistics c
        ≡ statistic (codes "cycles") (u32 (lines (trace_text c.trace))) ++ rest)
unfolding print_statistics
cycles_line c h = (
  later_statistics c,
  ap (λ (n : ℕ). statistic (codes "cycles") n ++ later_statistics c)
      (h.0 ∙ ap u32 (sym (lines-trace_text c.trace))),
)

-- When the processor halts, the statistics of a core that had a program begin with the number of the
-- lines of its trace, as a word.
print_statistics-lines :
    (fuel : ℕ) (memin : List ℕ) (imem : ℕ → List ℕ) (j : ℕ) {x : ℕ} {program : List ℕ}
    {q : Processor}
    → imem j ≡ x ∷ program
    → run fuel (init memin imem) ≡ Outcome.halted q
    → (rest : Bytes) × (print_statistics (q.cores j)
        ≡ statistic (codes "cycles") (u32 (lines (trace_text (q.cores j).trace))) ++ rest)
print_statistics-lines fuel memin imem j {q = q} loaded e =
    cycles_line (q.cores j) (halted_run-IsTraced fuel memin imem j loaded e)
