-- ===== src/Simulator/Ends.antt =====
-- What `main` of MulticoreProcessor.c writes when the processor halts.
use multicore_proccessor.Common.{ℕ, ◌≡◌, refl, ap, ◌∙◌, Option, none, some}
use multicore_proccessor.Memory.Image.{load_text}
use multicore_proccessor.Processor.{Processor, Outcome, run}
use multicore_proccessor.Simulator.{
  Inputs, Result, written, unfinished, initialize, teardown, finish, main,
}

-- `main` from the main memory that is loaded, if it is.
abbrev from_loaded : Option (ℕ → ℕ) → ((ℕ → ℕ) → Result) → Result
from_loaded o rest = elim o as (λ _. Result) [ none ↦ unfinished | some words ↦ rest words ]

main-from_loaded :
    (fuel : ℕ) (files : Inputs)
    → main fuel files
      ≡ from_loaded
          (load_text fuel files.memin 0 (λ _. 0))
          (λ words. finish (run fuel (initialize words files.imem)))
unfolding main
main-from_loaded fuel files = refl

pub main-written :
    (fuel : ℕ) (files : Inputs) {words : ℕ → ℕ} {q : Processor}
    → load_text fuel files.memin 0 (λ _. 0) ≡ some words
    → run fuel (initialize words files.imem) ≡ Outcome.halted q
    → main fuel files ≡ written (teardown q)
unfolding finish
main-written fuel files {words} loads halts =
    main-from_loaded fuel files
    ∙ ap
        (λ (m : Option (ℕ → ℕ)).
          from_loaded m (λ words. finish (run fuel (initialize words files.imem))))
        loads
    ∙ ap finish halts
