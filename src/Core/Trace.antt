-- ===== src/Core/Trace.antt =====
-- The trace and the count of cycles of Core/src/Core.c.
use multicore_proccessor.Common.{
  ℕ, ◌==◌, if◌then◌else◌, ◌≤◌, update, ◌+◌, ◌≡◌, refl, sym, ap, ◌∙◌, Bool, true, false, some, List,
  [], ◌∷◌, arith, length, u32, >>=-eq-some, some_eq, if-cases, inl, inr,
}
use mathlib.Core.Path.{subst}
use multicore_proccessor.Cache.State.{Shared}
use multicore_proccessor.Pipeline.State.{Machine}
use multicore_proccessor.Pipeline.Control.{execute_pipeline, pipe_flushed}
use multicore_proccessor.Core.{
  Core, TraceLine, iter, init, update_statistics, finish_cycle, started, load_lines,
}

-- The lines are numbered from 0 on, the last first.
abbrev pub NumberedLines : List TraceLine → Type 0
NumberedLines [] = Unit
NumberedLines (l ∷ ls) = (l.cycle ≡ u32 (length ls)) × NumberedLines ls

-- `cycles + 1`, which `print_statistics` writes, is the number of the lines, as a word.
abbrev pub IsTraced : Core → Type 0
IsTraced c = (u32 (c.cycles + 1) ≡ u32 (length c.trace)) × NumberedLines c.trace

cycles-update_statistics :
    (c : Core)
    → ((update_statistics c).cycles ≡ u32 (c.cycles + 1)) × ((update_statistics c).trace ≡ c.trace)
unfolding update_statistics
cycles-update_statistics c = ground arith

finish_cycle-IsTraced :
    (c : Core) (registers : ℕ → ℕ) (m : Machine)
    → IsTraced c
    → IsTraced (finish_cycle (update_statistics c) registers m).0
unfolding finish_cycle
finish_cycle-IsTraced c registers m h =
    let (cycles, trace) = cycles-update_statistics c in
    (
      omega (arith, cycles, h.0, ap length trace),
      (
        cycles ∙ h.0 ∙ ap (λ (l : List TraceLine). u32 (length l)) (sym trace),
        subst NumberedLines (sym trace) h.1,
      ),
    )

-- An iteration keeps the lines of the trace numbered from 0 on, and the count of cycles that is printed
-- at the end the number of the lines, as words.
pub iter-IsTraced :
    (c : Core) (s : Shared) {c' : Core} {s' : Shared}
    → IsTraced c
    → iter c s ≡ some (c', s')
    → IsTraced c'
unfolding iter
iter-IsTraced c s {c'} {s'} h e = elim (if-cases c.is_halted _ _ e) [
  | inl stopped ↦ subst (λ (r : Core × Shared). IsTraced r.0) (some_eq (c, s) (c', s') stopped) h
  | inr runs ↦ elim (if-cases (pipe_flushed c.pipeline) _ _ runs) [
    | inl flushed ↦
        subst (λ (r : Core × Shared). IsTraced r.0)
          (some_eq (record c { is_halted = true }, s) (c', s') flushed) h
    | inr steps ↦
        let (m, _, ends) =
          >>=-eq-some (execute_pipeline (record { pipeline = c.pipeline; shared = s }))
            (λ (m : Machine). some (finish_cycle (update_statistics c) c.pipeline.core_registers m))
            steps in
        subst (λ (r : Core × Shared). IsTraced r.0)
          (some_eq (finish_cycle (update_statistics c) c.pipeline.core_registers m) (c', s') ends)
          (finish_cycle-IsTraced c c.pipeline.core_registers m h)
  ]
]

load_lines-le :
    (program : List ℕ) (line : ℕ) (memory : ℕ → ℕ) → line ≤ (load_lines program line memory).0
unfolding load_lines
load_lines-le [] line memory = omega arith
load_lines-le (x ∷ program) line memory =
    ground (arith, load_lines-le program (line + 1) (update memory line x))

else-IsTraced : (b : Bool) (x y : Core) → b ≡ false → IsTraced y → IsTraced (if b then x else y)
else-IsTraced true x y h t = absurd (cc h)
else-IsTraced false x y h t = t

pub started-IsTraced :
    (id lines : ℕ) (memory : ℕ → ℕ) → 1 ≤ lines → IsTraced (started id (lines, memory))
unfolding started
started-IsTraced id lines memory h = else-IsTraced (lines == 0) _ _ (ground arith) (refl, tt)

-- A core that has a program starts so.
pub init-IsTraced : (id x : ℕ) (program : List ℕ) → IsTraced (init id (x ∷ program))
unfolding init load_lines
init-IsTraced id x program =
    let (lines, memory) = load_lines program 1 (update (λ _. 0) 0 x) in
    started-IsTraced id lines memory (load_lines-le program 1 (update (λ _. 0) 0 x))
