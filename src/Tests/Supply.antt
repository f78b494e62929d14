-- ===== src/Tests/Supply.antt =====
-- Witnesses about the supply of a block through Interface/src/Bus.c.
use multicore_proccessor.Common.{
  ℕ, ◌+◌, ◌==◌, ◌≡◌, ◌≢◌, refl, true, false, none, some, [], ◌∷◌, arith, if◌then◌else◌,
}
use multicore_proccessor.Bus.Packet.{Command, request}
use multicore_proccessor.Bus.State
use multicore_proccessor.Coherence.Snooping.{SingleOwner}
use multicore_proccessor.Coherence.Ownership.Supplied.{OwnedRequest-SingleOwner}
use multicore_proccessor.Memory
use multicore_proccessor.Memory.{Memory, masked}
use multicore_proccessor.Cache.State.{CacheData, Mesi, line, holds, is_modified}
use multicore_proccessor.Cache.State as CacheState
use multicore_proccessor.Cache.Access.{read_data, write_data}
use multicore_proccessor.Coherence.Fetch.Answers.{IsFetch}
use multicore_proccessor.Coherence.Fetch.Progress.{Hardware}
use multicore_proccessor.Coherence.Fetch.Served.{shared_by}
use multicore_proccessor.Coherence.Fetch.Miss.{after_access}
use multicore_proccessor.Coherence.Fetch.Whole.{iterations}
use multicore_proccessor.Coherence.Supply.Progress.{Owned, Supplied}
use multicore_proccessor.Coherence.Supply.Whole.{OwnedRequest, iterations-Supplied}
use multicore_proccessor.Coherence.Supply.Read.{Elsewhere, read_owned-completes}
use multicore_proccessor.Coherence.Supply.Write.{write_owned-completes}

-- Core 2 owns the blocks with the tag 0, and the other caches are empty.
abbrev owner_of : ℕ → CacheData
unfolding CacheState.init
owner_of j =
    if j == 2
    then record (CacheState.init 2) {
      dsram = λ x. 100 + x;
      tsram = λ _. record { tag = 0; mesi = Mesi.modified };
    }
    else CacheState.init j

abbrev at_start : Hardware
unfolding Memory.init CacheState.init
at_start = record { bus = State.initial; caches = owner_of; memory = Memory.init (20 ∷ 21 ∷ []) }

at_start-Owned : Owned 1 2 12 at_start.caches
unfolding Memory.init CacheState.init
at_start-Owned = record {
  requester = omega arith;
  owner = omega arith;
  ne = λ h. omega (arith, h);
  ids = λ j. ground arith;
  held = refl;
  owned = refl;
  absent = λ j ne. ground arith;
  invalid = refl;
}

at_start-Elsewhere : Elsewhere 1 2 12 at_start
unfolding Memory.init CacheState.init
at_start-Elsewhere = record {
  owned = at_start-Owned;
  idle = refl;
  empty = refl;
  free = refl;
  closed = refl;
}

read_owned-completes_example :
    let (missed, c, after) = read_data (at_start.caches 1) (shared_by at_start false false) 12 in
    let t = iterations 10 (after_access 1 at_start c after.bus) in
    (missed ≡ none)
    × ((read_data
          (t.caches 1)
          (shared_by t after.read_miss_occurred after.write_miss_occurred)
          12).0
        ≡ some 112)
    × (t.memory.words 12 ≡ 112)
unfolding at_start CacheState.init
read_owned-completes_example = read_owned-completes at_start false false at_start-Elsewhere

at_start-clean : (j : ℕ) → j ≢ 2 → is_modified (line (at_start.caches j) 12).mesi ≡ false
unfolding at_start owner_of CacheState.init
at_start-clean j ne = ground arith

write_owned-completes_example :
    let (first, c, after) = write_data (at_start.caches 1) (shared_by at_start false false) 12 7 in
    let t = iterations 10 (after_access 1 at_start c after.bus) in
    let seen = shared_by t after.read_miss_occurred after.write_miss_occurred in
    let (second, d, later) = write_data (t.caches 1) seen 12 7 in
    let u = iterations 25 (after_access 1 t d later.bus) in
    let last = shared_by u later.read_miss_occurred later.write_miss_occurred in
    let (third, e, finally) = write_data (u.caches 1) last 12 7 in
    (first ≡ false) × (second ≡ false) × (third ≡ true) × ((read_data e finally 12).0 ≡ some 7)
write_owned-completes_example =
    write_owned-completes at_start false false at_start-Elsewhere at_start-clean 7

-- Core 1 has asked for the block of the word 12, to write to it.
abbrev asked : Hardware
asked = record at_start {
  bus = record at_start.bus { queue = request 1 Command.bus_rd_x 12 0 ∷ [] };
}

asked-OwnedRequest : OwnedRequest 1 2 Command.bus_rd_x 12 [] asked
unfolding Memory.init CacheState.init
asked-OwnedRequest = record {
  fetch = IsFetch.own;
  owned = at_start-Owned;
  idle = refl;
  queued = refl;
  closed = refl;
}

iterations-Supplied_example :
    Supplied 1 2 Command.bus_rd_x 12 asked.caches asked.memory.words [] (iterations 9 asked)
iterations-Supplied_example = iterations-Supplied asked asked-OwnedRequest

asked-SingleOwner : (x : ℕ) → SingleOwner asked.caches x
unfolding at_start owner_of CacheState.init
asked-SingleOwner x j k ne hj hk = ground arith

OwnedRequest-SingleOwner_example : SingleOwner (iterations 9 asked).caches 12
OwnedRequest-SingleOwner_example =
    OwnedRequest-SingleOwner asked asked-OwnedRequest asked-SingleOwner 12
