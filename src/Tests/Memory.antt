-- ===== src/Tests/Memory.antt =====
-- Runs of, and witnesses about, Interface/src/MainMemory.c.
use multicore_proccessor.Common.{ℕ, ◌<◌, ◌≡◌, refl, false, List, [], ◌∷◌, leb}
use multicore_proccessor.Bus.Packet.{Packet, Command, request}
use multicore_proccessor.Memory.{init}
use multicore_proccessor.Memory.Timing.{after_calls, response_of, block_timing}

abbrev three_lines : List ℕ
three_lines = 7 ∷ 0 ∷ 9 ∷ []

abbrev read_packets : ℕ → Packet
read_packets n = request 2 Command.bus_rd 0x108 0

block_timing_example :
    ((n : ℕ) → n < 24 → response_of read_packets (λ _. false) n (init three_lines) ≡ leb 16 n)
    × ((after_calls read_packets (λ _. false) 24 (init three_lines)).transaction ≡ false)
unfolding init
block_timing_example = block_timing read_packets (λ _. false) (init three_lines) refl (λ n. refl)
