-- ===== src/Coherence/Latency.antt =====
-- `check_shared_line` of Interface/src/Bus.c over the caches of Core/src/Cache.c, and what the main
-- memory of Interface/src/MainMemory.c makes of it.
use multicore_proccessor.Common.{
  ℕ, zero, suc, ◌+◌, ◌≤◌, ◌<◌, ◌≡◌, ◌≢◌, refl, ap, ◌∙◌, Bool, true, false, arith,
}
use native.Mathlib.Decide.{ℕ_discrete}
use multicore_proccessor.Bus.Packet.{Packet, number_of_cores}
use multicore_proccessor.Bus.Iteration.{check_shared_line}
use multicore_proccessor.Memory.{Memory, bus_transaction_handler, is_no_command}
use multicore_proccessor.Cache.State.{Mesi, CacheData, line, holds}
use multicore_proccessor.Cache.Snoop.{shared_signal_handle}
use multicore_proccessor.Processor.{callbacks}

-- Once set, `is_modified` stays set.
signal-keeps : (c : CacheData) (p : Packet) → (shared_signal_handle c p true).1 ≡ true
unfolding shared_signal_handle
signal-keeps c p = ground arith

signal-absent :
    (c : CacheData) (p : Packet) (modified : Bool)
    → holds c p.bus_addr ≡ false
    → (shared_signal_handle c p modified).0 ≡ false
unfolding shared_signal_handle
signal-absent c p modified h = ground arith

signal-modified :
    (c : CacheData) (p : Packet) (modified : Bool)
    → c.id ≢ p.bus_origid
    → (line c p.bus_addr).mesi ≡ Mesi.modified
    → (shared_signal_handle c p modified).1 ≡ true
unfolding shared_signal_handle
signal-modified c p modified ne h = ground arith

module _ (caches : ℕ → CacheData) (p : Packet) where
  check_shared_line-keeps :
      (n i : ℕ) (shared modified : Bool)
      → modified ≡ true
      → (check_shared_line callbacks n i caches p shared modified).1 ≡ true
  unfolding check_shared_line
  check_shared_line-keeps zero i shared modified h = h
  check_shared_line-keeps (suc n) i shared modified h =
      check_shared_line-keeps n (i + 1) _ _
        (ap (λ (b : Bool). (shared_signal_handle (caches i) p b).1) h ∙ signal-keeps (caches i) p)

  check_shared_line-absent :
      (n i : ℕ) (shared modified : Bool)
      → shared ≡ false
      → ((j : ℕ) → holds (caches j) p.bus_addr ≡ false)
      → (check_shared_line callbacks n i caches p shared modified).0 ≡ false
  unfolding check_shared_line
  check_shared_line-absent zero i shared modified h absent = h
  check_shared_line-absent (suc n) i shared modified h absent =
      check_shared_line-absent n (i + 1) _ _
        (ground (arith, signal-absent (caches i) p modified (absent i))) absent

  module _ (k : ℕ) (other : (caches k).id ≢ p.bus_origid)
      (modified_line : (line (caches k) p.bus_addr).mesi ≡ Mesi.modified) where
    check_shared_line-finds :
        (n i : ℕ) (shared modified : Bool)
        → i ≤ k
        → k < i + n
        → (check_shared_line callbacks n i caches p shared modified).1 ≡ true
    unfolding check_shared_line
    check_shared_line-finds zero i shared modified le lt = absurd (omega arith)
    check_shared_line-finds (suc n) i shared modified le lt = elim (ℕ_discrete i k) [
      | yes same ↦ check_shared_line-keeps n (i + 1) _ _ (
          ap (λ (x : ℕ). (shared_signal_handle (caches x) p modified).1) same
          ∙ signal-modified (caches k) p modified other modified_line)
      | no ne ↦ check_shared_line-finds n (i + 1) _ _ (omega arith) (omega arith)
    ]

answers_direct :
    (m : Memory) (p : Packet)
    → m.transaction ≡ false
    → is_no_command p.bus_cmd ≡ false
    → (bus_transaction_handler m p true).0 ≡ true
unfolding bus_transaction_handler
answers_direct m p idle command = ground arith

-- A request for a block that no cache holds is answered by an idle main memory at once, without its
-- latency, if another core's cache has a modified line in the place of the block: the line's tag is
-- not looked at.
pub check_shared_line-skips_latency :
    (caches : ℕ → CacheData) (p : Packet) (m : Memory) (k : ℕ)
    → k < number_of_cores
    → (caches k).id ≢ p.bus_origid
    → (line (caches k) p.bus_addr).mesi ≡ Mesi.modified
    → ((j : ℕ) → holds (caches j) p.bus_addr ≡ false)
    → m.transaction ≡ false
    → is_no_command p.bus_cmd ≡ false
    → let (shared, modified) = check_shared_line callbacks number_of_cores 0 caches p false false in
      (shared ≡ false) × (modified ≡ true) × ((bus_transaction_handler m p modified).0 ≡ true)
check_shared_line-skips_latency caches p m k lt other modified_line absent idle command =
    let modified =
      check_shared_line-finds caches p k other modified_line number_of_cores 0 false false
        (omega arith) (omega arith) in
    (
      check_shared_line-absent caches p number_of_cores 0 false false refl absent,
      modified,
      ap (λ (b : Bool). (bus_transaction_handler m p b).0) modified
          ∙ answers_direct m p idle command,
    )
