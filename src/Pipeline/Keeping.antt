-- ===== src/Pipeline/Keeping.antt =====
-- What holds of a pipeline through a cycle of Core/src/Pipeline.c when each stage keeps it.
use multicore_proccessor.Common.{
  ℕ, zero, suc, ◌+◌, ◌-◌, ◌≡◌, ◌≤◌, arith, inl, inr, true, false, not, Bool, Option, some,
  if-outcomes, if◌then◌else◌, >>=-eq-some, some_eq,
}
use mathlib.Core.Path.{subst}
use multicore_proccessor.Pipeline.State.{Pipeline, Machine, fetch_stage, pipeline_size, is_bubble}
use multicore_proccessor.Pipeline.Hazard.{is_pipeline_needs_data_hazard_stall}
use multicore_proccessor.Pipeline.Control.{
  local, pipe_functions, run_stage, run_stages, first_stage, execute_stages, update_statistics,
  execute_pipeline,
}

negated_lem : (b : Bool) → not b ≡ true → b ≡ false
negated_lem b h = ground arith

first_stage-pos : (p : Pipeline) → 1 ≤ first_stage p
first_stage-pos p = ground arith

module _ (P : Machine → Type 0) where
  pub local-keeps :
      (stage : Pipeline → Option Pipeline) (m : Machine) {m' : Machine}
      → ((q : Pipeline) → stage m.pipeline ≡ some q → P (record m { pipeline = q }))
      → local stage m ≡ some m'
      → P m'
  local-keeps stage m {m'} k e =
      let (q, runs, ends) =
        >>=-eq-some (stage m.pipeline) (λ (q : Pipeline). some (record m { pipeline = q })) e in
      subst P (some_eq (record m { pipeline = q }) m' ends) (k q runs)

  -- The stages behind fetch, and fetch, which a halted pipeline leaves out.
  module _
      (later : (stage : ℕ) (m m' : Machine)
        → 1 ≤ stage
        → P m
        → pipe_functions stage m ≡ some m'
        → P m')
      (fetches : (m m' : Machine)
        → m.pipeline.halted ≡ false
        → P m
        → pipe_functions fetch_stage m ≡ some m'
        → P m') where
    run_stages-keeps :
        (n stage : ℕ) (m : Machine) {m' : Machine}
        → 1 ≤ stage
        → P m
        → run_stages n stage m ≡ some m'
        → P m'
    unfolding run_stages run_stage
    run_stages-keeps zero stage m {m'} le h e = subst P (some_eq m m' e) h
    run_stages-keeps (suc n) stage m le h e =
        let (q, first, rest) =
          >>=-eq-some (run_stage stage m) (λ q. run_stages n (stage + 1) q) e in
        run_stages-keeps n (stage + 1) q (omega arith)
          (elim (if-outcomes (not (is_bubble (m.pipeline.pipe_stages stage)))
            (pipe_functions stage m) (some m) first) [
              | inl (_, runs) ↦ later stage m q le h runs
              | inr (_, skips) ↦ subst P (some_eq m q skips) h
            ])
          rest

    execute_stages-keeps : (m : Machine) {m' : Machine} → P m → execute_stages m ≡ some m' → P m'
    unfolding execute_stages
    execute_stages-keeps m h e =
        let stage = first_stage m.pipeline in
        let (q, first, rest) =
          >>=-eq-some (if not m.pipeline.halted then pipe_functions fetch_stage m else some m)
            (run_stages (pipeline_size - stage) stage) e in
        run_stages-keeps (pipeline_size - stage) stage q (first_stage-pos m.pipeline)
          (elim (if-outcomes (not m.pipeline.halted) (pipe_functions fetch_stage m) (some m)
            first) [
              | inl (live, runs) ↦ fetches m q (negated_lem m.pipeline.halted live) h runs
              | inr (_, halted) ↦ subst P (some_eq m q halted) h
            ])
          rest

    pub execute_pipeline-keeps :
        ((m : Machine) (b : Bool)
          → P m
          → P (record m { pipeline = record m.pipeline { data_hazard_stall = b } }))
        → ((m : Machine) → P m → P (record m { pipeline = update_statistics m.pipeline }))
        → (m : Machine) {m' : Machine} → P m
        → execute_pipeline m ≡ some m'
        → P m'
    unfolding execute_pipeline
    execute_pipeline-keeps tested counted m {m'} h e =
        let hazard = is_pipeline_needs_data_hazard_stall m.pipeline in
        let start = record m { pipeline = record m.pipeline { data_hazard_stall = hazard } } in
        let count = λ (x : Machine). record x { pipeline = update_statistics x.pipeline } in
        let (q, runs, ends) = >>=-eq-some (execute_stages start) (λ x. some (count x)) e in
        subst P (some_eq (count q) m' ends)
          (counted q (execute_stages-keeps start (tested m hazard h) runs))
