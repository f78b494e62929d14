-- ===== src/Core/Draining.antt =====
-- How a core of Core/src/Core.c comes to its end once its pipeline is halted.
use multicore_proccessor.Common.{
  ℕ, zero, suc, ◌-◌, ◌≤◌, ◌<◌, ◌≡◌, ◌⊎◌, inl, inr, refl, sym, ap, ◌∙◌, Bool, true, false, Option,
  some, arith, if-outcomes, if◌then◌else◌, ◌>>=◌, >>=-eq-some, some_eq,
}
use mathlib.Core.Path.{subst}
use multicore_proccessor.Cache.State.{CacheData, Shared}
use multicore_proccessor.Pipeline.State.{Pipeline, Machine, pipeline_size}
use multicore_proccessor.Pipeline.Control.{execute_pipeline, bubble_commands, pipe_flushed}
use multicore_proccessor.Pipeline.Standing.{Stands, execute_pipeline-Stands}
use multicore_proccessor.Pipeline.Movement.{
  Draining, bubble_commands-flags, bubble_commands-Draining, bubble_commands-drains,
  pipe_flushed-Draining, Draining-pipe_flushed,
}
use multicore_proccessor.Core.{Core, iter, update_statistics, finish_cycle}

-- A core with the cache that the bus has left it.
abbrev pub with_cache : Core → CacheData → Core
with_cache c cache = record c { pipeline = record c.pipeline { cache_data = cache } }

-- Calls of `Core_Iter`, of which `n` at least end without a stall for the memory. Before each, the bus may have
-- left the core any cache, and the other cores anything that is shared.
pub data Iterations (c : Core) : ℕ → Core → Type 0 where
  here : Iterations c zero c
  moved :
      {n : ℕ} {d e : Core} {s' : Shared} (cache : CacheData) (s : Shared)
      → Iterations c n d
      → iter (with_cache d cache) s ≡ some (e, s')
      → e.pipeline.memory_stall ≡ false
      → Iterations c (suc n) e
  other :
      {n : ℕ} {d e : Core} {s' : Shared} (cache : CacheData) (s : Shared)
      → Iterations c n d
      → iter (with_cache d cache) s ≡ some (e, s')
      → Iterations c n e

-- The first iteration that moves empties two stages, each further one another.
abbrev emptied : ℕ → ℕ
emptied zero = 0
emptied (suc n) = suc (suc n)

record Drains (n : ℕ) (c : Core) : Type 0 where
  draining : Draining (emptied n) c.pipeline
  ended : c.is_halted ≡ true → Draining pipeline_size c.pipeline

-- What an iteration comes to: nothing at the end, the end of a flushed pipeline, or a cycle.
iter-cases :
    (c : Core) (s : Shared) {r : Core × Shared}
    → iter c s ≡ some r
    → ((c.is_halted ≡ true) × ((c, s) ≡ r))
      ⊎ ((pipe_flushed c.pipeline ≡ true) × ((record c { is_halted = true }, s) ≡ r))
      ⊎ ((c.is_halted ≡ false)
          × (m : Machine) × (execute_pipeline (record { pipeline = c.pipeline; shared = s })
              ≡ some m)
          × (finish_cycle (update_statistics c) c.pipeline.core_registers m ≡ r))
unfolding iter
iter-cases c s {r} e =
    let finish =
      λ (m : Machine). some (finish_cycle (update_statistics c) c.pipeline.core_registers m) in
    let runs = execute_pipeline (record { pipeline = c.pipeline; shared = s }) in
    let flushed : Option (Core × Shared) = some (record c { is_halted = true }, s) in
    elim (if-outcomes c.is_halted (some (c, s))
      (if pipe_flushed c.pipeline then flushed else runs >>= finish) e) [
        | inl (halted, ends) ↦ inl (halted, some_eq (c, s) r ends)
        | inr (live, goes) ↦
            elim (if-outcomes (pipe_flushed c.pipeline) flushed (runs >>= finish) goes) [
              | inl (drained, ends) ↦
                  inr (inl (drained, some_eq (record c { is_halted = true }, s) r ends))
              | inr (_, steps) ↦
                  let (m, executes, ends) = >>=-eq-some runs finish steps in
                  inr (
                    inr (
                      live,
                      m,
                      executes,
                      some_eq (finish_cycle (update_statistics c) c.pipeline.core_registers m) r
                          ends,
                    ))
            ]
      ]

all_empty : (n : ℕ) (p : Pipeline) → Draining pipeline_size p → Draining n p
all_empty n p d = record { halted = d.halted; empty = λ stage lt size. d.empty stage size size }

all_ended : (n : ℕ) (c : Core) → Draining pipeline_size c.pipeline → Drains n c
all_ended n c d = record { draining = all_empty (emptied n) c.pipeline d; ended = λ _. d }

executed-Draining :
    (n : ℕ) (p : Pipeline) (s : Shared) {m : Machine}
    → Draining n p
    → execute_pipeline (record { pipeline = p; shared = s }) ≡ some m
    → Draining n m.pipeline
executed-Draining n p s {m} d e =
    let stands : Stands (λ i. (p.pipe_stages i).pc) m.pipeline =
      execute_pipeline-Stands (λ i. (p.pipe_stages i).pc) (record { pipeline = p; shared = s })
        (record { halted = d.halted; at = λ i. refl }) e in
    record {
      halted = stands.halted;
      empty = λ stage lt size. stands.at stage ∙ d.empty stage lt size;
    }

finish_cycle-lem :
    (c : Core) (registers : ℕ → ℕ) (m : Machine)
    → ((finish_cycle (update_statistics c) registers m).0.pipeline ≡ bubble_commands m.pipeline)
      × ((finish_cycle (update_statistics c) registers m).0.is_halted ≡ c.is_halted)
unfolding finish_cycle update_statistics
finish_cycle-lem c registers m = ground arith

-- An iteration keeps what is empty, and empties more if it ends without a stall for the memory.
iter-Drains :
    (n k : ℕ) (c : Core) (s : Shared) {r : Core × Shared}
    → ((m : Pipeline)
        → m.memory_stall ≡ r.0.pipeline.memory_stall
        → Draining (emptied n) m
        → Draining (emptied k) (bubble_commands m))
    → Drains n c
    → iter c s ≡ some r
    → Drains k r.0
iter-Drains n k c s {r} step d e = elim (iter-cases c s e) [
  | inl (halted, ends) ↦
      subst (λ (x : Core × Shared). Drains k x.0) ends (all_ended k c (d.ended halted))
  | inr (inl (flushed, ends)) ↦
      subst (λ (x : Core × Shared). Drains k x.0) ends
        (all_ended k (record c { is_halted = true }) (Draining-pipe_flushed c.pipeline flushed))
  | inr (inr (live, m, executes, ends)) ↦
      let (pipeline, halted) = finish_cycle-lem c c.pipeline.core_registers m in
      let moved_to : bubble_commands m.pipeline ≡ r.0.pipeline =
        sym pipeline ∙ ap (λ (x : Core × Shared). x.0.pipeline) ends in
      let live_still : r.0.is_halted ≡ false =
        sym (ap (λ (x : Core × Shared). x.0.is_halted) ends) ∙ halted ∙ live in
      record {
        draining = subst (Draining (emptied k)) moved_to (
            step m.pipeline
              (sym (bubble_commands-flags m.pipeline).1
                ∙ ap (λ (p : Pipeline). p.memory_stall) moved_to)
              (executed-Draining (emptied n) c.pipeline s d.draining executes));
        ended = λ h. absurd (cc (h, live_still));
      }
]

cached : (n : ℕ) (c : Core) (cache : CacheData) → Drains n c → Drains n (with_cache c cache)
cached n c cache d = record {
  draining = record { halted = d.draining.halted; empty = d.draining.empty };
  ended = λ h. record { halted = (d.ended h).halted; empty = (d.ended h).empty };
}

reached : (n stage : ℕ) → stage < emptied (suc n) → (stage ≤ 1) ⊎ (stage - 1 < emptied n)
reached zero stage h = omega arith
reached (suc n) stage h = omega arith

Iterations-Drains :
    {c d : Core} {n : ℕ}
    → c.pipeline.halted ≡ true
    → c.is_halted ≡ false
    → Iterations c n d
    → Drains n d
Iterations-Drains {c} h live here = record {
  draining = record { halted = h; empty = λ stage lt size. absurd (omega arith) };
  ended = λ e. absurd (cc (e, live));
}
Iterations-Drains h live (moved {n = n} {d = d} cache s before runs moves) =
    iter-Drains n (suc n) (with_cache d cache) s
      (λ m e k. bubble_commands-drains (emptied n) (emptied (suc n)) m (reached n) (e ∙ moves) k)
      (cached n d cache (Iterations-Drains h live before)) runs
Iterations-Drains h live (other {n = n} {d = d} cache s before runs) =
    iter-Drains n n (with_cache d cache) s (λ m e k. bubble_commands-Draining (emptied n) m k)
      (cached n d cache (Iterations-Drains h live before)) runs

ends_here :
    (c : Core) (s : Shared) (ended flushed : Bool) (rest : Option (Core × Shared))
    → flushed ≡ true
    → (if ended
        then some (record c { is_halted = ended }, s)
        else if flushed
        then some (record c { is_halted = true }, s)
        else rest)
      ≡ some (record c { is_halted = true }, s)
ends_here c s true flushed rest h = refl
ends_here c s false true rest h = refl
ends_here c s false false rest h = absurd (cc h)

flushed_iter :
    (c : Core) (s : Shared)
    → pipe_flushed c.pipeline ≡ true
    → iter c s ≡ some (record c { is_halted = true }, s)
unfolding iter
flushed_iter c s h =
    ends_here c s c.is_halted (pipe_flushed c.pipeline)
      (execute_pipeline (record { pipeline = c.pipeline; shared = s }) >>= λ m.
        some (finish_cycle (update_statistics c) c.pipeline.core_registers m))
      h

-- A core that has not ended, with a halted pipeline: after calls of Core_Iter of which four at least end
-- without a stall for the memory, and between which the bus may change the core's cache and the other
-- cores what is shared, its pipeline is flushed, and the next call ends the core and changes nothing else.
pub Iterations-ends :
    {c d : Core} {n : ℕ} (cache : CacheData) (s : Shared)
    → c.pipeline.halted ≡ true
    → c.is_halted ≡ false
    → Iterations c n d
    → 4 ≤ n
    → (pipe_flushed d.pipeline ≡ true)
      × (iter (with_cache d cache) s ≡ some (record (with_cache d cache) { is_halted = true }, s))
Iterations-ends {d = d} {n = n} cache s h live path enough =
    let drained : Draining pipeline_size d.pipeline =
      all_five n d enough (Iterations-Drains h live path) in
    (
      pipe_flushed-Draining d.pipeline drained,
      flushed_iter (with_cache d cache) s (
          pipe_flushed-Draining (with_cache d cache).pipeline
            (record { halted = drained.halted; empty = drained.empty })),
    )
  where
    all_five : (n : ℕ) (d : Core) → 4 ≤ n → Drains n d → Draining pipeline_size d.pipeline
    all_five zero d le k = absurd (omega arith)
    all_five (suc n) d le k = record {
      halted = k.draining.halted;
      empty = λ stage lt size. k.draining.empty stage (omega arith) size;
    }
