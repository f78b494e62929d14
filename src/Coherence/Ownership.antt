-- ===== src/Coherence/Ownership.antt =====
-- Who owns a block after a whole transaction of Interface/src/Bus.c.
pub mod Change
pub mod Fetched
pub mod Supplied
