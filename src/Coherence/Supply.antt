-- ===== src/Coherence/Supply.antt =====
-- A block that one core fetches while another core owns it: a whole transaction of
-- Interface/src/Bus.c, in which the owner's Core/src/Cache.c supplies the words and
-- Interface/src/MainMemory.c takes them over.
pub mod Answers
pub mod Progress
pub mod Steps
pub mod Ends
pub mod Whole
pub mod Read
pub mod Upgrade
pub mod Write
