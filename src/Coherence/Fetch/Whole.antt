-- ===== src/Coherence/Fetch/Whole.antt =====
-- The whole of a fetch, iteration by iteration of `Bus_Iter` of Interface/src/Bus.c.
use multicore_proccessor.Common.{ℕ, zero, suc, ◌<◌, ◌≡◌, false, List, ◌∷◌, arith}
use native.Mathlib.Decide.{dec_lt}
use multicore_proccessor.Bus.Packet.{Packet, Command, request, number_of_cores}
use multicore_proccessor.Bus.Iteration.{iter}
use multicore_proccessor.Processor.{callbacks}
use multicore_proccessor.Coherence.Fetch.Answers.{IsFetch, Aside}
use multicore_proccessor.Coherence.Fetch.Progress.{Hardware, Fetching, Fetched}
use multicore_proccessor.Coherence.Fetch.Steps.{Fetching-waits, Fetching-hands_over}
use multicore_proccessor.Coherence.Fetch.Ends.{Fetching-begins, Fetching-ends}

-- That many calls of `Bus_Iter`.
unfoldable pub iterations : ℕ → Hardware → Hardware
iterations zero s = s
iterations (suc n) s = iter callbacks (iterations n s)

-- An idle bus whose queue begins with a core's request for a block, an idle memory, and no other
-- cache that has the block or a modified line in its place.
pub record Requested (i : ℕ) (cmd : Command) (a : ℕ) (queue : List Packet) (s : Hardware)
    : Type 0 where
  pub fetch : IsFetch cmd
  pub core : i < number_of_cores
  pub idle : s.bus.in_progress ≡ false
  pub queued : s.bus.queue ≡ request i cmd a 0 ∷ queue
  pub closed : s.memory.transaction ≡ false
  pub uninvolved : (j : ℕ) → Aside i a j (s.caches j)

module _ {i : ℕ} {cmd : Command} {a : ℕ} {queue : List Packet} (s : Hardware)
    (h : Requested i cmd a queue s) where
  Fetching-iterations :
      (n : ℕ)
      → n < 23
      → Fetching i cmd a s.caches s.memory.words queue (suc n) (iterations (suc n) s)
  unfolding iterations
  Fetching-iterations zero lt =
      Fetching-begins s h.fetch h.uninvolved (omega (arith, h.core)) h.idle h.queued h.closed
  Fetching-iterations (suc n) lt =
      let before = Fetching-iterations n (omega arith) in
      elim (dec_lt (suc n) 16) [
        | yes short ↦ Fetching-waits h.fetch h.uninvolved (iterations (suc n) s) short before
        | no long ↦
            Fetching-hands_over h.fetch h.uninvolved (iterations (suc n) s) (omega arith)
              (omega arith) before
      ]

  -- A core's BusRd or BusRdX at the head of the queue, with bus and memory idle, and with no other
  -- cache that has the block or a modified line in its place, is served by 24 iterations of the bus:
  -- the bus and the memory are idle again, the requester's line is exclusive, with the tag of the
  -- address and the memory's eight words; its other words and lines, the other caches, the memory's
  -- words and the rest of the queue are as they were.
  pub iterations-Fetched : Fetched i cmd a s.caches s.memory.words queue (iterations 24 s)
  unfolding iterations
  iterations-Fetched =
      Fetching-ends h.fetch h.uninvolved (iterations 23 s) (Fetching-iterations 22 (omega arith))
