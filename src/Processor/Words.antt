-- ===== src/Processor/Words.antt =====
-- The width of all words of the processor of MulticoreProcessor.c, through its cycles.
use multicore_proccessor.Common.{
  ℕ, zero, suc, ◌+◌, ◌≡◌, inl, inr, some, IsWordArray, update, update-all, >>=-eq-some, some_eq,
  defined, ◌||◌, not,
}
use mathlib.Core.Path.{subst}
use multicore_proccessor.Bus.Packet.{number_of_cores}
use multicore_proccessor.Bus.Iteration
use multicore_proccessor.Bus.Iteration.Words.{KeepWords, iter-HoldsWords}
use multicore_proccessor.Bus.Iteration.Words as BusWords
use multicore_proccessor.Memory.{Memory}
use multicore_proccessor.Memory.Words.{bus_transaction_handler-words}
use multicore_proccessor.Cache.State.{CacheData, Shared}
use multicore_proccessor.Cache.Words.{cache_snooping_handle-words, cache_response_handle-words}
use multicore_proccessor.Pipeline.Words.{HasWords}
use multicore_proccessor.Core
use multicore_proccessor.Core.{Core}
use multicore_proccessor.Core.Words.{iter-words}
use multicore_proccessor.Processor.{
  Processor, Outcome, callbacks, bus_iter, platform, from_platform, set_cache, registered_loop,
  run_core, run_cores, cycle, processor_halted, run,
}
use multicore_proccessor.Processor.Trace.{round-cases}

-- The registers, the results and operands in the stages, the words of the caches, of the packets on the
-- bus and in its queue, and of the main memory have 32 bits, the program counters have 16, and the
-- operations that wait in the stages keep to these widths.
pub record HoldsWords (p : Processor) : Type 0 where
  pub cores : (i : ℕ) → HasWords (p.cores i).pipeline
  pub bus : BusWords.HasWords p.shared.bus
  pub memory : IsWordArray p.memory.words

callbacks-KeepWords :
    KeepWords
      (λ (c : CacheData). IsWordArray c.dsram)
      (λ (m : Memory). IsWordArray m.words)
      callbacks
callbacks-KeepWords = record {
  snooping = cache_snooping_handle-words;
  response = cache_response_handle-words;
  memory = bus_transaction_handler-words;
}

bus_iter-HoldsWords :
    (p : Processor) {p' : Processor} → HoldsWords p → bus_iter p ≡ some p' → HoldsWords p'
unfolding bus_iter from_platform platform set_cache
bus_iter-HoldsWords p {p'} h e =
    let after = Iteration.iter callbacks (platform p) in
    let (_, _, ends) =
      >>=-eq-some
        (defined (
          registered_loop number_of_cores 0 p.registered
          || not (Iteration.calls_back (Iteration.release p.shared.bus))))
        (λ _. some (from_platform p after)) e in
    let words =
      iter-HoldsWords (λ (c : CacheData). IsWordArray c.dsram) (λ (m : Memory). IsWordArray m.words)
        callbacks callbacks-KeepWords (platform p)
        (record { bus = h.bus; caches = λ i. (h.cores i).cache; memory = h.memory }) in
    subst HoldsWords (some_eq (from_platform p after) p' ends) (record {
      cores = λ i. record {
        registers = (h.cores i).registers;
        stages = (h.cores i).stages;
        rs = (h.cores i).rs;
        rt = (h.cores i).rt;
        pc = (h.cores i).pc;
        cache = words.caches i;
      };
      bus = words.bus;
      memory = words.memory;
    })

run_core-HoldsWords :
    (i : ℕ) (p : Processor) {p' : Processor} → HoldsWords p → run_core i p ≡ some p' → HoldsWords p'
unfolding run_core
run_core-HoldsWords i p {p'} h e =
    let put = λ (r : Core × Shared). record p { cores = update p.cores i r.0; shared = r.1 } in
    let (r, steps, ends) = >>=-eq-some (Core.iter (p.cores i) p.shared) (λ r. some (put r)) e in
    let (pipeline, bus) = iter-words (p.cores i) p.shared (h.cores i) h.bus steps in
    subst HoldsWords (some_eq (put r) p' ends) (record {
      cores = update-all (λ (c : Core). HasWords c.pipeline) p.cores i r.0 h.cores pipeline;
      bus = bus;
      memory = h.memory;
    })

run_cores-HoldsWords :
    (n i : ℕ) (p : Processor) {p' : Processor}
    → HoldsWords p
    → run_cores n i p ≡ some p'
    → HoldsWords p'
unfolding run_cores
run_cores-HoldsWords zero i p {p'} h e = subst HoldsWords (some_eq p p' e) h
run_cores-HoldsWords (suc n) i p h e =
    let (q, first, rest) = >>=-eq-some (run_core i p) (λ q. run_cores n (i + 1) q) e in
    run_cores-HoldsWords n (i + 1) q (run_core-HoldsWords i p h first) rest

-- A cycle of the bus and of all cores keeps the registers, the results and operands in the stages, the
-- words of the caches, of the packets on the bus and in its queue, and of the main memory within 32
-- bits, the program counters within 16, and the operations that wait in the stages such that they keep
-- to these widths.
pub cycle-HoldsWords :
    (p : Processor) {p' : Processor} → HoldsWords p → cycle p ≡ some p' → HoldsWords p'
unfolding cycle
cycle-HoldsWords p h e =
    let (q, first, rest) = >>=-eq-some (bus_iter p) (λ q. run_cores number_of_cores 0 q) e in
    run_cores-HoldsWords number_of_cores 0 q (bus_iter-HoldsWords p h first) rest

-- So does a run up to its end.
pub run-HoldsWords :
    (fuel : ℕ) (p : Processor) {q : Processor}
    → HoldsWords p
    → run fuel p ≡ Outcome.halted q
    → HoldsWords q
unfolding run
run-HoldsWords zero p h e = absurd (cc e)
run-HoldsWords (suc fuel) p h e = elim (round-cases (processor_halted p) (cycle p) p (run fuel) e) [
  | inl done ↦ subst HoldsWords done h
  | inr (p', steps, rest) ↦ run-HoldsWords fuel p' (cycle-HoldsWords p h steps) rest
]
