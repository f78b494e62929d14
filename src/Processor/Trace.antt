-- ===== src/Processor/Trace.antt =====
-- The traces of all cores through the loop of MulticoreProcessor.c.
use multicore_proccessor.Common.{
  ℕ, zero, suc, ◌+◌, ◌≡◌, refl, sym, Bool, true, false, Option, none, some, List, ◌∷◌, update,
  update_self, update_ne, ◌⊎◌, inl, inr, >>=-eq-some, some_eq, defined, ◌||◌, not,
}
use mathlib.Core.Path.{subst}
use native.Mathlib.Decide.{ℕ_discrete}
use multicore_proccessor.Bus.Packet.{number_of_cores}
use multicore_proccessor.Bus.Iteration
use multicore_proccessor.Cache.State.{Shared}
use multicore_proccessor.Core
use multicore_proccessor.Core.{Core}
use multicore_proccessor.Core.Trace.{IsTraced, iter-IsTraced, init-IsTraced}
use multicore_proccessor.Processor.{
  Processor, Outcome, callbacks, bus_iter, platform, from_platform, set_cache, registered_loop,
  run_core, run_cores, cycle, processor_halted, run, init,
}

-- The bus changes of a core its cache alone.
bus_iter-IsTraced :
    (p : Processor) (j : ℕ) {p' : Processor}
    → IsTraced (p.cores j)
    → bus_iter p ≡ some p'
    → IsTraced (p'.cores j)
unfolding bus_iter from_platform set_cache
bus_iter-IsTraced p j {p'} h e =
    let (_, _, ends) =
      >>=-eq-some
        (defined (
          registered_loop number_of_cores 0 p.registered
          || not (Iteration.calls_back (Iteration.release p.shared.bus))))
        (λ _. some (from_platform p (Iteration.iter callbacks (platform p)))) e in
    subst (λ (q : Processor). IsTraced (q.cores j)) (some_eq _ p' ends) h

run_core-IsTraced :
    (i : ℕ) (p : Processor) (j : ℕ) {p' : Processor}
    → IsTraced (p.cores j)
    → run_core i p ≡ some p'
    → IsTraced (p'.cores j)
unfolding run_core
run_core-IsTraced i p j {p'} h e =
    let (r, steps, ends) =
      >>=-eq-some (Core.iter (p.cores i) p.shared)
        (λ (r : Core × Shared). some (record p { cores = update p.cores i r.0; shared = r.1 })) e in
    subst (λ (q : Processor). IsTraced (q.cores j)) (some_eq _ p' ends)
      (elim (ℕ_discrete i j) [
        | yes same ↦
            subst (λ (x : ℕ). IsTraced (update p.cores i r.0 x)) same
              (subst IsTraced (sym (update_self p.cores i r.0)) (
                iter-IsTraced (p.cores i) p.shared
                  (subst (λ (x : ℕ). IsTraced (p.cores x)) (sym same) h) steps))
        | no other ↦ subst IsTraced (sym (update_ne p.cores r.0 other)) h
      ])

run_cores-IsTraced :
    (n i : ℕ) (p : Processor) (j : ℕ) {p' : Processor}
    → IsTraced (p.cores j)
    → run_cores n i p ≡ some p'
    → IsTraced (p'.cores j)
unfolding run_cores
run_cores-IsTraced zero i p j {p'} h e =
    subst (λ (q : Processor). IsTraced (q.cores j)) (some_eq p p' e) h
run_cores-IsTraced (suc n) i p j h e =
    let (q, first, rest) = >>=-eq-some (run_core i p) (λ q. run_cores n (i + 1) q) e in
    run_cores-IsTraced n (i + 1) q j (run_core-IsTraced i p j h first) rest

cycle-IsTraced :
    (p : Processor) (j : ℕ) {p' : Processor}
    → IsTraced (p.cores j)
    → cycle p ≡ some p'
    → IsTraced (p'.cores j)
unfolding cycle
cycle-IsTraced p j h e =
    let (q, first, rest) = >>=-eq-some (bus_iter p) (λ q. run_cores number_of_cores 0 q) e in
    run_cores-IsTraced number_of_cores 0 q j (bus_iter-IsTraced p j h first) rest

-- How a run that halts goes on.
pub round-cases :
    (b : Bool) (o : Option Processor) (p : Processor) (k : Processor → Outcome) {q : Processor}
    → (elim b as (λ _. Outcome) [
      | true ↦ Outcome.halted p
      | false ↦ elim o as (λ _. Outcome) [ none ↦ Outcome.fault | some p' ↦ k p' ]
    ])
      ≡ Outcome.halted q
    → (p ≡ q) ⊎ ((p' : Processor) × (o ≡ some p') × (k p' ≡ Outcome.halted q))
round-cases true o p k e = inl cc
round-cases false none p k e = absurd (cc e)
round-cases false (some p') p k e = inr (p', refl, e)

pub run-IsTraced :
    (fuel : ℕ) (p : Processor) (j : ℕ) {q : Processor}
    → IsTraced (p.cores j)
    → run fuel p ≡ Outcome.halted q
    → IsTraced (q.cores j)
unfolding run
run-IsTraced zero p j h e = absurd (cc e)
run-IsTraced (suc fuel) p j h e = elim (round-cases (processor_halted p) (cycle p) p (run fuel) e) [
  | inl done ↦ subst (λ (r : Processor). IsTraced (r.cores j)) done h
  | inr (p', steps, rest) ↦ run-IsTraced fuel p' j (cycle-IsTraced p j h steps) rest
]

-- When the processor halts, the trace of a core that had a program has its lines numbered from 0 on,
-- and the count of cycles that is printed for the core is the number of the lines, as words.
pub halted_run-IsTraced :
    (fuel : ℕ) (memin : List ℕ) (imem : ℕ → List ℕ) (j : ℕ) {x : ℕ} {program : List ℕ}
    {q : Processor}
    → imem j ≡ x ∷ program
    → run fuel (init memin imem) ≡ Outcome.halted q
    → IsTraced (q.cores j)
unfolding init
halted_run-IsTraced fuel memin imem j {x} {program} loaded e =
    run-IsTraced fuel (init memin imem) j
      (subst (λ (words : List ℕ). IsTraced (Core.init j words)) (sym loaded)
        (init-IsTraced j x program))
      e
