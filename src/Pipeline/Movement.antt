-- ===== src/Pipeline/Movement.antt =====
-- How instructions move through the stages: `Pipeline_BubbleCommands` of Core/src/Pipeline.c.
use multicore_proccessor.Common.{
  ℕ, zero, suc, ◌-◌, ◌≤◌, ◌<◌, ◌≡◌, ◌≢◌, ◌⊎◌, true, false, arith, leb, ◌&&◌, uint16_max, ◌==◌,
  if◌then◌else◌, ◌∙◌,
}
use multicore_proccessor.Pipeline.State.{
  Pipeline, fetch_stage, decode_stage, execute_stage, write_back_stage, pipeline_size,
}
use multicore_proccessor.Pipeline.Control.{bubble_commands, pipe_flushed}

-- The program counter that a stage gets at the end of a cycle.
abbrev pub next_pc : Pipeline → ℕ → ℕ
next_pc p stage =
    if p.memory_stall
    then (if stage == write_back_stage then uint16_max else (p.pipe_stages stage).pc)
    else if p.data_hazard_stall
    then (if leb stage decode_stage
        then (p.pipe_stages stage).pc
        else if stage == execute_stage
        then uint16_max
        else (p.pipe_stages (stage - 1)).pc)
    else if stage == fetch_stage
    then (p.pipe_stages stage).pc
    else (p.pipe_stages (stage - 1)).pc

-- The program counters of the stages after Pipeline_BubbleCommands: each stage takes over that of the
-- one before; on a memory stall all stay and write back is emptied; on a data hazard fetch and decode
-- stay and execute is emptied. Of a halted pipeline fetch and decode are emptied besides.
pub bubble_commands-pc :
    (p : Pipeline) (stage : ℕ)
    → stage ≤ write_back_stage
    → ((bubble_commands p).pipe_stages stage).pc
      ≡ (if p.halted && leb stage decode_stage then uint16_max else next_pc p stage)
unfolding bubble_commands
bubble_commands-pc p stage h = ground arith

-- Without stalls an instruction moves with all that its stage holds: the instruction word, the
-- operation and the result; below decode also in a halted pipeline.
pub bubble_commands-moves :
    (p : Pipeline) (stage : ℕ)
    → stage < write_back_stage
    → p.memory_stall ≡ false
    → p.data_hazard_stall ≡ false
    → (p.halted ≡ false) ⊎ (decode_stage ≤ stage)
    → (p.pipe_stages stage).pc ≢ uint16_max
    → (bubble_commands p).pipe_stages (suc stage) ≡ p.pipe_stages stage
unfolding bubble_commands
bubble_commands-moves p zero h ms ds live busy = ground arith
bubble_commands-moves p (suc zero) h ms ds live busy = ground arith
bubble_commands-moves p (suc (suc zero)) h ms ds live busy = ground arith
bubble_commands-moves p (suc (suc (suc zero))) h ms ds live busy = ground arith
bubble_commands-moves p (suc (suc (suc (suc n)))) h ms ds live busy = absurd (omega arith)

-- Halted, with the first `n` stages empty.
pub record Draining (n : ℕ) (p : Pipeline) : Type 0 where
  pub halted : p.halted ≡ true
  pub empty :
      (stage : ℕ) → stage < n → stage < pipeline_size → (p.pipe_stages stage).pc ≡ uint16_max

pub bubble_commands-flags :
    (p : Pipeline)
    → ((bubble_commands p).halted ≡ p.halted) × ((bubble_commands p).memory_stall ≡ p.memory_stall)
unfolding bubble_commands
bubble_commands-flags p = ground arith

-- What is empty stays empty.
pub bubble_commands-Draining :
    (n : ℕ) (p : Pipeline) → Draining n p → Draining n (bubble_commands p)
bubble_commands-Draining n p d = record {
  halted = (bubble_commands-flags p).0 ∙ d.halted;
  empty = λ stage lt size. ground (
    arith,
    bubble_commands-pc p stage (omega arith),
    d.empty stage,
    d.empty (stage - 1),
    d.halted,
  );
}

-- Without a stall for the memory one more stage becomes empty, and two if none was.
pub bubble_commands-drains :
    (n m : ℕ) (p : Pipeline)
    → ((stage : ℕ) → stage < m → (stage ≤ decode_stage) ⊎ (stage - 1 < n))
    → p.memory_stall ≡ false
    → Draining n p
    → Draining m (bubble_commands p)
bubble_commands-drains n m p reach moves d = record {
  halted = (bubble_commands-flags p).0 ∙ d.halted;
  empty = λ stage lt size. ground (
    arith,
    bubble_commands-pc p stage (omega arith),
    reach stage lt,
    d.empty (stage - 1),
    d.halted,
  );
}

pub pipe_flushed-Draining : (p : Pipeline) → Draining pipeline_size p → pipe_flushed p ≡ true
unfolding pipe_flushed
pipe_flushed-Draining p d =
    ground (arith, d.halted, d.empty 0, d.empty 1, d.empty 2, d.empty 3, d.empty 4)

pub Draining-pipe_flushed : (p : Pipeline) → pipe_flushed p ≡ true → Draining pipeline_size p
unfolding pipe_flushed
Draining-pipe_flushed p h = record { halted = ground arith; empty = λ stage lt size. ground arith }
