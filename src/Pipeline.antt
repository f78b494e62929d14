-- ===== src/Pipeline.antt =====
-- Core/src/Pipeline.c: the five-stage pipeline of a core. `Pipeline.State` has its data,
-- `Pipeline.Hazard` its test for data hazards, `Pipeline.Stages` its stages and `Pipeline.Control`
-- what drives them.
pub mod State
pub mod Hazard
pub mod Stages
pub mod Control
pub mod Conflicts
pub mod Movement
pub mod Operands
pub mod LostDecode
pub mod Keeping
pub mod Standing
pub mod Words
