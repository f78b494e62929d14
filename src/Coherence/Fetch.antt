-- ===== src/Coherence/Fetch.antt =====
-- A block that one core fetches while no other cache is involved: a whole transaction of
-- Interface/src/Bus.c, from the queue through Interface/src/MainMemory.c to Core/src/Cache.c.
pub mod Answers
pub mod Progress
pub mod Steps
pub mod Ends
pub mod Whole
pub mod Served
pub mod Miss
