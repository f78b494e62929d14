-- ===== src/Tests/Fetch.antt =====
-- Witnesses about a fetch through Interface/src/Bus.c.
use multicore_proccessor.Common.{ℕ, ◌≡◌, refl, true, false, none, some, [], ◌∷◌, arith}
use multicore_proccessor.Bus.Packet.{Command, request}
use multicore_proccessor.Bus.State
use multicore_proccessor.Coherence.Snooping.{SingleOwner}
use multicore_proccessor.Coherence.Ownership.Fetched.{Requested-SingleOwner}
use multicore_proccessor.Memory
use multicore_proccessor.Memory.{Memory, masked}
use multicore_proccessor.Cache.State.{CacheData, Mesi, line}
use multicore_proccessor.Cache.State as CacheState
use multicore_proccessor.Cache.Access.{read_data, write_data}
use multicore_proccessor.Coherence.Fetch.Answers.{IsFetch}
use multicore_proccessor.Coherence.Fetch.Progress.{Hardware, Fetched}
use multicore_proccessor.Coherence.Fetch.Whole.{iterations, Requested, iterations-Fetched}
use multicore_proccessor.Coherence.Fetch.Served.{shared_by}
use multicore_proccessor.Coherence.Fetch.Miss.{
  Uncached, after_access, read_miss-completes, write_miss-completes,
}

-- Empty caches, and sixteen words of memory.
abbrev at_start : Hardware
unfolding Memory.init CacheState.init
at_start = record {
  bus = State.initial;
  caches = λ j. CacheState.init j;
  memory = Memory.init (20 ∷ 21 ∷ 22 ∷ 23 ∷ 24 ∷ 25 ∷ 26 ∷ 27 ∷ 28 ∷ 29 ∷ 30 ∷ 31 ∷ 32 ∷ []);
}

at_start-Uncached : Uncached 1 12 at_start
unfolding Memory.init CacheState.init
at_start-Uncached = record {
  core = omega arith;
  idle = refl;
  empty = refl;
  free = refl;
  closed = refl;
  numbered = λ j. refl;
  absent = λ j. refl;
  clean = λ j. refl;
}

read_miss-completes_example :
    let (missed, c, after) = read_data (at_start.caches 1) (shared_by at_start false false) 12 in
    let t = iterations 25 (after_access 1 at_start c after.bus) in
    (missed ≡ none)
    × ((read_data
          (t.caches 1)
          (shared_by t after.read_miss_occurred after.write_miss_occurred)
          12).0
        ≡ some (at_start.memory.words (masked 12)))
read_miss-completes_example = read_miss-completes at_start false false at_start-Uncached

write_miss-completes_example :
    let (written, c, after) =
      write_data (at_start.caches 1) (shared_by at_start false false) 12 7 in
    let t = iterations 25 (after_access 1 at_start c after.bus) in
    let (again, d, last) =
      write_data
        (t.caches 1)
        (shared_by t after.read_miss_occurred after.write_miss_occurred)
        12
        7 in
    (written ≡ false) × (again ≡ true) × ((read_data d last 12).0 ≡ some 7)
write_miss-completes_example = write_miss-completes at_start false false at_start-Uncached 7

-- Core 1 has asked for the block of the word 12.
abbrev asked : Hardware
asked = record at_start { bus = record at_start.bus { queue = request 1 Command.bus_rd 12 0 ∷ [] } }

asked-Requested : Requested 1 Command.bus_rd 12 [] asked
unfolding Memory.init CacheState.init
asked-Requested = record {
  fetch = IsFetch.read;
  core = omega arith;
  idle = refl;
  queued = refl;
  closed = refl;
  uninvolved = λ j. record { id = refl; absent = λ _. refl; clean = λ _. refl };
}

iterations-Fetched_example :
    Fetched 1 Command.bus_rd 12 asked.caches asked.memory.words [] (iterations 24 asked)
iterations-Fetched_example = iterations-Fetched asked asked-Requested

asked-SingleOwner : (x : ℕ) → SingleOwner asked.caches x
unfolding at_start CacheState.init
asked-SingleOwner x j k ne hj hk = ground arith

Requested-SingleOwner_example : SingleOwner (iterations 24 asked).caches 12
Requested-SingleOwner_example = Requested-SingleOwner asked asked-Requested asked-SingleOwner 12
