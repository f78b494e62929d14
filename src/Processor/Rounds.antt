-- ===== src/Processor/Rounds.antt =====
-- What the loop of `main` in MulticoreProcessor.c comes to.
use multicore_proccessor.Common.{
  ℕ, zero, suc, ◌<◌, ◌≡◌, ◌⊎◌, inl, inr, refl, Bool, true, false, Option, none, some, arith,
}
use multicore_proccessor.Bus.Packet.{number_of_cores}
use multicore_proccessor.Processor.{Processor, Outcome, cycle, processor_halted, run}

abbrev pub AllHalted : Processor → Type 0
AllHalted p = (i : ℕ) → i < number_of_cores → (p.cores i).is_halted ≡ true

abbrev pub OneRuns : Processor → Type 0
OneRuns p = (i : ℕ) × (i < number_of_cores) × ((p.cores i).is_halted ≡ false)

-- Cycles, before each of which a core is not halted.
pub data Rounds : ℕ → Processor → Processor → Type 0 where
  here : (p : Processor) → Rounds zero p p
  round :
      {n : ℕ} {p p' q : Processor}
      → OneRuns p
      → cycle p ≡ some p'
      → Rounds n p' q
      → Rounds (suc n) p q

-- The end of the loop, within its fuel: all cores are halted; or a core is not, and the cycle is
-- undefined; or the fuel is used up.
abbrev pub Comes : ℕ → Processor → Outcome → Type 0
Comes fuel p (Outcome.halted q) = (n : ℕ) × (n < fuel) × Rounds n p q × AllHalted q
Comes fuel p Outcome.fault =
    (n : ℕ) × (q : Processor) × (n < fuel) × Rounds n p q × OneRuns q × (cycle q ≡ none)
Comes fuel p (Outcome.running q) = Rounds fuel p q

all_halted :
    (p : Processor)
    → (p.cores 0).is_halted ≡ true
    → (p.cores 1).is_halted ≡ true
    → (p.cores 2).is_halted ≡ true
    → (p.cores 3).is_halted ≡ true
    → AllHalted p
all_halted p e0 e1 e2 e3 zero lt = e0
all_halted p e0 e1 e2 e3 (suc zero) lt = e1
all_halted p e0 e1 e2 e3 (suc (suc zero)) lt = e2
all_halted p e0 e1 e2 e3 (suc (suc (suc zero))) lt = e3
all_halted p e0 e1 e2 e3 (suc (suc (suc (suc i)))) lt = absurd (omega arith)

halted_or_runs :
    (p : Processor)
    → ((processor_halted p ≡ true) × AllHalted p) ⊎ ((processor_halted p ≡ false) × OneRuns p)
unfolding processor_halted
halted_or_runs p =
    four (p.cores 0).is_halted (p.cores 1).is_halted (p.cores 2).is_halted (p.cores 3).is_halted
      refl refl refl refl
  where
    four :
        (a b c d : Bool)
        → (p.cores 0).is_halted ≡ a
        → (p.cores 1).is_halted ≡ b
        → (p.cores 2).is_halted ≡ c
        → (p.cores 3).is_halted ≡ d
        → ((processor_halted p ≡ true) × AllHalted p) ⊎ ((processor_halted p ≡ false) × OneRuns p)
    four false b c d e0 e1 e2 e3 = inr (ground (arith, e0), (0, omega arith, e0))
    four true false c d e0 e1 e2 e3 = inr (ground (arith, e0, e1), (1, omega arith, e1))
    four true true false d e0 e1 e2 e3 = inr (ground (arith, e0, e1, e2), (2, omega arith, e2))
    four true true true false e0 e1 e2 e3 =
        inr (ground (arith, e0, e1, e2, e3), (3, omega arith, e3))
    four true true true true e0 e1 e2 e3 =
        inl (ground (arith, e0, e1, e2, e3), all_halted p e0 e1 e2 e3)

later :
    (fuel : ℕ) (p p' : Processor) (x : Outcome)
    → OneRuns p
    → cycle p ≡ some p'
    → Comes fuel p' x
    → Comes (suc fuel) p x
later fuel p p' (Outcome.halted q) runs e (n, lt, rounds, all) =
    (suc n, omega (arith, lt), round runs e rounds, all)
later fuel p p' Outcome.fault runs e (n, q, lt, rounds, one, undefined) =
    (suc n, q, omega (arith, lt), round runs e rounds, one, undefined)
later fuel p p' (Outcome.running q) runs e rounds = round runs e rounds

one_round :
    (fuel : ℕ) (b : Bool) (o : Option Processor) (p : Processor) (k : Processor → Outcome)
    → ((b ≡ true) × AllHalted p) ⊎ ((b ≡ false) × OneRuns p)
    → cycle p ≡ o
    → ((p' : Processor) → Comes fuel p' (k p'))
    → Comes (suc fuel) p (elim b as (λ _. Outcome) [
      | true ↦ Outcome.halted p
      | false ↦ elim o as (λ _. Outcome) [ none ↦ Outcome.fault | some p' ↦ k p' ]
    ])
one_round fuel true o p k (inl (_, all)) e h = (0, omega arith, here p, all)
one_round fuel true o p k (inr (other, _)) e h = absurd (cc other)
one_round fuel false o p k (inl (other, _)) e h = absurd (cc other)
one_round fuel false none p k (inr (_, runs)) e h = (0, p, omega arith, here p, runs, e)
one_round fuel false (some p') p k (inr (_, runs)) e h = later fuel p p' (k p') runs e (h p')

-- The loop stops the first time that all four cores are halted, and before that makes a cycle each time
-- that one is not. With the fuel `fuel` it comes to a halted processor after fewer cycles than that; or
-- to an undefined cycle of a processor of which a core still runs, after fewer cycles; or it has made
-- `fuel` cycles, each of a processor of which a core still runs.
pub run-Comes : (fuel : ℕ) (p : Processor) → Comes fuel p (run fuel p)
unfolding run
run-Comes zero p = here p
run-Comes (suc fuel) p =
    one_round fuel (processor_halted p) (cycle p) p (run fuel) (halted_or_runs p) refl
      (λ p'. run-Comes fuel p')
