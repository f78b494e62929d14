-- ===== src/Simulator/Statistics.antt =====
-- The statistics and the trace of a core in what a run writes.
use multicore_proccessor.Common.{ℕ, ◌≤◌, ◌≡◌, refl, Option, none, some, ◌++◌, u32}
use mathlib.Core.Path.{subst}
use multicore_proccessor.Text.Bytes.{Bytes, codes}
use multicore_proccessor.Core.Imem.{init_memory}
use multicore_proccessor.Core.Trace.{IsTraced, started-IsTraced}
use multicore_proccessor.Memory.Image.{load_text}
use multicore_proccessor.Processor.{Processor, Outcome, run}
use multicore_proccessor.Processor.Trace.{run-IsTraced}
use multicore_proccessor.Report.{statistic}
use multicore_proccessor.Report.Cycles.{lines, cycles_line}
use multicore_proccessor.Simulator.{
  Inputs, Outputs, Result, written, unfinished, core_init, initialize, core_teardown, teardown,
  finish, main,
}

core_init-IsTraced :
    (id : ℕ) (text : Bytes) → 1 ≤ (init_memory text).0 → IsTraced (core_init id text)
unfolding core_init
core_init-IsTraced id text h = started-IsTraced id (init_memory text).0 (init_memory text).1 h

written_outputs : (o o' : Outputs) → written o ≡ written o' → o ≡ o'
written_outputs o o' e = cc e

finish-written :
    (x : Outcome) {o : Outputs}
    → finish x ≡ written o
    → (q : Processor) × (x ≡ Outcome.halted q) × (teardown q ≡ o)
unfolding finish
finish-written (Outcome.halted q) {o} e = (q, refl, written_outputs (teardown q) o e)
finish-written Outcome.fault e = absurd (cc e)
finish-written (Outcome.running q) e = absurd (cc e)

loaded-written :
    (m : Option (ℕ → ℕ)) (k : (ℕ → ℕ) → Result) {o : Outputs}
    → (elim m as (λ _. Result) [ none ↦ unfinished | some words ↦ k words ]) ≡ written o
    → (words : ℕ → ℕ) × (m ≡ some words) × (k words ≡ written o)
loaded-written none k e = absurd (cc e)
loaded-written (some words) k e = (words, refl, e)

-- A run that writes its texts has loaded the main memory, has halted, and writes of the processor then.
pub main-halted :
    (fuel : ℕ) (files : Inputs) {o : Outputs}
    → main fuel files ≡ written o
    → (words : ℕ → ℕ) × (q : Processor) × (load_text fuel files.memin 0 (λ _. 0) ≡ some words)
      × (run fuel (initialize words files.imem) ≡ Outcome.halted q)
      × (teardown q ≡ o)
unfolding main
main-halted fuel files e =
    let (words, loads, ends) =
      loaded-written (load_text fuel files.memin 0 (λ _. 0))
        (λ words. finish (run fuel (initialize words files.imem))) e in
    let (q, halts, texts) = finish-written (run fuel (initialize words files.imem)) ends in
    (words, q, loads, halts, texts)

-- The statistics that a run writes of a core that has loaded a line of its program begin with the number
-- of lines of the trace that the run writes of this core, as a word.
pub main-cycles :
    (fuel : ℕ) (files : Inputs) (j : ℕ) {o : Outputs}
    → 1 ≤ (init_memory (files.imem j)).0
    → main fuel files ≡ written o
    → (rest : Bytes) × ((o.cores j).stats
        ≡ statistic (codes "cycles") (u32 (lines (o.cores j).trace)) ++ rest)
unfolding initialize teardown core_teardown
main-cycles fuel files j {o} loaded e =
    let (words, q, _, halts, texts) = main-halted fuel files e in
    subst
      (λ (o : Outputs).
        (rest : Bytes) × ((o.cores j).stats
          ≡ statistic (codes "cycles") (u32 (lines (o.cores j).trace)) ++ rest))
      texts
      (cycles_line (q.cores j) (
        run-IsTraced fuel (initialize words files.imem) j
          (core_init-IsTraced j (files.imem j) loaded) halts))
