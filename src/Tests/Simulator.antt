-- ===== src/Tests/Simulator.antt =====
-- A run of MulticoreProcessor.c from its texts to its texts, and witnesses about it.
use multicore_proccessor.Common.{
  ℕ, ◌^◌, ◌<◌, ◌∙◌, ◌≤◌, ◌≡◌, refl, true, false, none, some, [], ◌++◌, ◌==◌, u32, if◌then◌else◌,
  arith, Bool, Option, length, update,
}
use multicore_proccessor.Text.Bytes.{Bytes, codes}
use multicore_proccessor.Text.Scan.{digit, fscanf_word}
use multicore_proccessor.Core.Imem.{init_memory}
use multicore_proccessor.Report.{statistic}
use multicore_proccessor.Report.Cycles.{lines}
use native.Mathlib.Nat.{le_refl}
use multicore_proccessor.Memory.{main_memory_size}
use multicore_proccessor.Memory.Image.{load_text, print_memory}
use multicore_proccessor.Processor.{Processor, Outcome, run, cycle}
use multicore_proccessor.Processor.Words.{HoldsWords, cycle-HoldsWords}
use multicore_proccessor.Simulator.Memout.{initialize-HoldsWords, main-memout}
use multicore_proccessor.Simulator.{
  Inputs, Outputs, Result, written, undefined, unfinished, initialize, teardown, main,
}
use multicore_proccessor.Processor.Rounds.{Comes, run-Comes}
use multicore_proccessor.Simulator.Statistics.{main-cycles}

-- lw $r2, $zero, $imm, 3; halt; and three cores that halt.
abbrev loading : Inputs
loading = record {
  memin = codes "0000000A\n0000000B\n0000000C\n0000000D\n";
  imem = λ i. if i == 0 then codes "10201003\n14000000\n" else codes "14000000\n";
}

abbrev no_texts : Outputs
no_texts = record {
  memout = [];
  bus_trace = [];
  cores = λ i. record { reg = []; trace = []; ds_ram = []; ts_ram = []; stats = [] };
}

abbrev outputs : Result → Outputs
outputs (written o) = o
outputs undefined = no_texts
outputs unfinished = no_texts

abbrev is_written : Result → Bool
is_written (written o) = true
is_written undefined = false
is_written unfinished = false

written_lem : (r : Result) → is_written r ≡ true → r ≡ written (outputs r)
written_lem (written o) h = refl
written_lem undefined h = absurd (cc h)
written_lem unfinished h = absurd (cc h)

loading_writes : is_written (main 60 loading) ≡ true
unfolding main digit
loading_writes = refl

loading_lines : (init_memory (loading.imem 0)).0 ≡ 2
unfolding init_memory fscanf_word digit
loading_lines = refl

main-cycles_example :
    (rest : Bytes) × (((outputs (main 60 loading)).cores 0).stats
      ≡ statistic (codes "cycles") (u32 (lines ((outputs (main 60 loading)).cores 0).trace))
        ++ rest)
main-cycles_example =
    main-cycles 60 loading 0 (omega (arith, loading_lines))
      (written_lem (main 60 loading) loading_writes)

-- The main memory that is loaded, the processor at the start, and what is left of it at the end.
abbrev words : ℕ → ℕ
words = update (update (update (update (λ _. 0) 0 10) 1 11) 2 12) 3 13

abbrev at_start : Processor
at_start = initialize words loading.imem

abbrev last_processor : Outcome → Processor
last_processor (Outcome.halted p) = p
last_processor Outcome.fault = at_start
last_processor (Outcome.running p) = p

abbrev has_halted : Outcome → Bool
has_halted (Outcome.halted p) = true
has_halted Outcome.fault = false
has_halted (Outcome.running p) = false

halted_lem : (x : Outcome) → has_halted x ≡ true → x ≡ Outcome.halted (last_processor x)
halted_lem (Outcome.halted p) h = refl
halted_lem Outcome.fault h = absurd (cc h)
halted_lem (Outcome.running p) h = absurd (cc h)

loading_halts : has_halted (run 60 at_start) ≡ true
unfolding run initialize fscanf_word digit
loading_halts = refl

memin_loads : load_text 60 loading.memin 0 (λ _. 0) ≡ some words
unfolding load_text digit
memin_loads = refl

memory_stays : (i : ℕ) → (last_processor (run 60 at_start)).memory.words i ≡ words i
unfolding run initialize fscanf_word digit
memory_stays i = refl

words_above : (i : ℕ) → 2 ^ 16 ≤ i → words i ≡ 0
words_above i h = ground arith

main-memout_example :
    let q = last_processor (run 60 at_start) in
    (main 60 loading ≡ written (teardown q))
    × (loaded : ℕ → ℕ) × (load_text (length (print_memory q.memory)) (teardown q).memout 0 (λ _. 0)
        ≡ some loaded)
    × ((i : ℕ) → i < main_memory_size → loaded i ≡ q.memory.words i)
main-memout_example =
    main-memout 60 loading (length (print_memory (last_processor (run 60 at_start)).memory))
      memin_loads (halted_lem (run 60 at_start) loading_halts)
      (λ i h lt. memory_stays i ∙ words_above i h) (le_refl _)

abbrev goes_on : Option Processor → Bool
goes_on (some p) = true
goes_on none = false

abbrev next : Option Processor → Processor
next (some p) = p
next none = at_start

goes_on_lem : (m : Option Processor) → goes_on m ≡ true → m ≡ some (next m)
goes_on_lem (some p) h = refl
goes_on_lem none h = absurd (cc h)

cycle_goes_on : goes_on (cycle at_start) ≡ true
unfolding run initialize fscanf_word digit
cycle_goes_on = refl

cycle-HoldsWords_example : HoldsWords (next (cycle at_start))
cycle-HoldsWords_example =
    cycle-HoldsWords at_start (initialize-HoldsWords words loading.imem (λ i. ground arith))
      (goes_on_lem (cycle at_start) cycle_goes_on)

run-Comes_example : Comes 60 at_start (run 60 at_start)
run-Comes_example = run-Comes 60 at_start
