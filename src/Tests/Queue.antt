-- ===== src/Tests/Queue.antt =====
-- Witnesses about the linked queue of Interface/src/Bus.c.
use multicore_proccessor.Common.{
  ◌≡◌, refl, true, false, none, some, [], ◌∷◌, ◌==◌, if◌then◌else◌, arith,
}
use multicore_proccessor.Bus.Packet.{Packet, Command, request}
use multicore_proccessor.Bus.State.{fifo_is_empty, fifo_enqueue, fifo_dequeue}
use multicore_proccessor.Bus.Queue.{Fifo, bus_fifo_is_empty, bus_fifo_enqueue, bus_fifo_dequeue}
use multicore_proccessor.Bus.Queue.Refine.{
  Represents, Dequeues, bus_fifo_enqueue-Represents, bus_fifo_dequeue-Dequeues,
}

abbrev first : Packet
first = request 0 Command.bus_rd 8 0

abbrev second : Packet
second = request 2 Command.bus_rd_x 12 0

-- The first packet in the node 5, in front of it the second in the node 6.
abbrev two : Fifo
two = record {
  nodes = λ a.
      if a == 5
      then record { item = first; parent = some 6; next = none }
      else record { item = second; parent = none; next = some 5 };
  head = some 6;
  tail = some 5;
}

two-Represents : Represents two (5 ∷ 6 ∷ []) (first ∷ second ∷ [])
two-Represents = (6, refl, refl, (refl, refl, ((omega arith), tt), (refl, refl, refl, refl)))

bus_fifo_enqueue-Represents_example :
    ((bus_fifo_enqueue two (some 7) first).0 ≡ true)
    × Represents
        (bus_fifo_enqueue two (some 7) first).1
        (5 ∷ 6 ∷ 7 ∷ [])
        (fifo_enqueue (first ∷ second ∷ []) first)
    × (bus_fifo_enqueue two none first ≡ (false, two))
bus_fifo_enqueue-Represents_example =
    bus_fifo_enqueue-Represents two (5 ∷ 6 ∷ []) (first ∷ second ∷ []) 7 first two-Represents
      (omega arith, (omega arith, tt))

bus_fifo_dequeue-Dequeues_example :
    Dequeues (5 ∷ 6 ∷ []) (fifo_dequeue (first ∷ second ∷ [])) (bus_fifo_dequeue two)
    × (bus_fifo_is_empty two ≡ fifo_is_empty (first ∷ second ∷ []))
bus_fifo_dequeue-Dequeues_example =
    bus_fifo_dequeue-Dequeues two (5 ∷ 6 ∷ []) (first ∷ second ∷ []) two-Represents
