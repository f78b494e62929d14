-- ===== src/Memory/Words.antt =====
-- The width of the words of Interface/src/MainMemory.c, and of those that it answers with.
use multicore_proccessor.Common.{
  ◌≡◌, sym, ◌⊎◌, inl, inr, Bool, arith, IsWord, IsWordArray, update, update-all,
}
use mathlib.Core.Path.{subst}
use multicore_proccessor.Bus.Packet.{Packet}
use multicore_proccessor.Memory.{Memory, masked, bus_transaction_handler}

answered :
    (m : Memory) (p : Packet) (direct : Bool)
    → let (_, m', p') = bus_transaction_handler m p direct in
      ((m'.words ≡ m.words) ⊎ (m'.words ≡ update m.words (masked p.bus_addr) p.bus_data))
      × ((p'.bus_data ≡ p.bus_data) ⊎ (p'.bus_data ≡ m.words (masked p.bus_addr)))
unfolding bus_transaction_handler
answered m p direct = ground arith

pub bus_transaction_handler-words :
    (m : Memory) (p : Packet) (direct : Bool)
    → IsWordArray m.words
    → IsWord p.bus_data
    → let (_, m', p') = bus_transaction_handler m p direct in
      IsWordArray m'.words × IsWord p'.bus_data
bus_transaction_handler-words m p direct h k =
    let (words, word) = answered m p direct in
    (
      (elim words [
        | inl same ↦ subst IsWordArray (sym same) h
        | inr stored ↦
            subst IsWordArray (sym stored)
              (update-all IsWord m.words (masked p.bus_addr) p.bus_data h k)
      ]),
      (elim word [
        | inl same ↦ subst IsWord (sym same) k
        | inr read ↦ subst IsWord (sym read) (h (masked p.bus_addr))
      ]),
    )
