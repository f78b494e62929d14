-- ===== src/Tests.antt =====
-- Tests and witnesses: runs of the code on small inputs, and each theorem at an input that meets its
-- conditions.
mod Processor
mod Opcodes
mod Memory
mod Cache
mod Fetch
mod Core
mod Queue
mod Assembler
mod Files
mod Report
mod Simulator
mod Supply
mod Pipeline
