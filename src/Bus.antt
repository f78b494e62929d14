-- ===== src/Bus.antt =====
-- Interface/src/Bus.c: the shared bus. Packets and the queue are `Bus.Packet` and `Bus.State`, the
-- queue in its linked nodes is `Bus.Queue`, and one iteration is `Bus.Iteration`.
pub mod Packet
pub mod State
pub mod Iteration
pub mod Queue
