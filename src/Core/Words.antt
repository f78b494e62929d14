-- ===== src/Core/Words.antt =====
-- The width of the words of a core of Core/src/Core.c.
use multicore_proccessor.Common.{
  ℕ, ◌-◌, ◌^◌, ◌≡◌, ◌==◌, inl, inr, true, false, some, arith, if-all, if-cases, if◌then◌else◌,
  ◌>>=◌, >>=-eq-some, some_eq, [],
}
use mathlib.Core.Path.{subst}
use multicore_proccessor.Bus.Iteration.Words as BusWords
use multicore_proccessor.Cache.State.{Shared}
use multicore_proccessor.Cache.State as CacheState
use multicore_proccessor.Pipeline.State.{Pipeline, Machine}
use multicore_proccessor.Pipeline.State as PipelineState
use multicore_proccessor.Pipeline.Control.{execute_pipeline, pipe_flushed}
use multicore_proccessor.Pipeline.Words.{HasWords, HoldsWords}
use multicore_proccessor.Pipeline.Words.Control.{
  execute_pipeline-HoldsWords, bubble_commands-HasWords,
}
use multicore_proccessor.Core.{Core, zeroed, started, iter, update_statistics, finish_cycle}

finish_cycle-words :
    (c : Core) (registers : ℕ → ℕ) (m : Machine)
    → HoldsWords m
    → let (c', s') = finish_cycle c registers m in HasWords c'.pipeline × BusWords.HasWords s'.bus
unfolding finish_cycle
finish_cycle-words c registers m h = (bubble_commands-HasWords m.pipeline h.pipeline, h.bus)

pub iter-words :
    (c : Core) (s : Shared) {r : Core × Shared}
    → HasWords c.pipeline
    → BusWords.HasWords s.bus
    → iter c s ≡ some r
    → HasWords r.0.pipeline × BusWords.HasWords r.1.bus
unfolding iter
iter-words c s {r} h b e =
    let Held = λ (x : Core × Shared). HasWords x.0.pipeline × BusWords.HasWords x.1.bus in
    let finish =
      λ (m : Machine). some (finish_cycle (update_statistics c) c.pipeline.core_registers m) in
    let runs = execute_pipeline (record { pipeline = c.pipeline; shared = s }) in
    let flushed = some (record c { is_halted = true }, s) in
    elim (if-cases c.is_halted (some (c, s))
      (if pipe_flushed c.pipeline then flushed else runs >>= finish) e) [
        | inl halted ↦ subst Held (some_eq (c, s) r halted) (h, b)
        | inr goes ↦ elim (if-cases (pipe_flushed c.pipeline) flushed (runs >>= finish) goes) [
          | inl ends ↦ subst Held (some_eq (record c { is_halted = true }, s) r ends) (h, b)
          | inr steps ↦
              let (m, executes, ends) = >>=-eq-some runs finish steps in
              subst Held
                (some_eq (finish_cycle (update_statistics c) c.pipeline.core_registers m) r ends)
                (finish_cycle-words (update_statistics c) c.pipeline.core_registers m (
                  execute_pipeline-HoldsWords (record { pipeline = c.pipeline; shared = s })
                    (record { pipeline = h; bus = b }) executes))
        ]
      ]

pub started-HasWords :
    (id lines : ℕ) (memory : ℕ → ℕ) → HasWords (started id (lines, memory)).pipeline
unfolding started zeroed PipelineState.init CacheState.init
started-HasWords id lines memory =
    if-all (λ (c : Core). HasWords c.pipeline) (lines == 0) (record zeroed { is_halted = true })
      (record {
        is_halted = false;
        index = id;
        pipeline = PipelineState.init memory (λ _. 0) (CacheState.init id);
        cycles = 2 ^ 32 - 1;
        instructions = 0;
        trace = [];
      })
      (record {
        registers = λ _. omega arith;
        stages = λ _. record { result = omega arith; operation = tt };
        rs = omega arith;
        rt = omega arith;
        pc = omega arith;
        cache = λ _. omega arith;
      })
      (record {
        registers = λ _. omega arith;
        stages = λ _. record { result = omega arith; operation = tt };
        rs = omega arith;
        rt = omega arith;
        pc = omega arith;
        cache = λ _. omega arith;
      })
