-- ===== src/Coherence.antt =====
-- The four caches of Core/src/Cache.c together, as Interface/src/Bus.c asks them in turn.
pub mod Snooping
pub mod Fetch
pub mod Supply
pub mod Ownership
pub mod Latency
