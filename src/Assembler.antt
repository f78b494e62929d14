-- ===== src/Assembler.antt =====
-- src/Assembler/ca2025asm/ca2025asm/asm.c: the assembler, from the text of a program to the texts of
-- an instruction memory and a data memory. Its messages are left out.
pub mod Result
pub mod Names
pub mod State
pub mod Line
pub mod Labels
pub mod Find
pub mod Resolve
pub mod Bounds
pub mod Ready
pub mod Stores
pub mod Invariant
pub mod Loaded
pub mod Whole
pub mod Encode
pub mod Spelling
pub mod Operands
pub mod RoundTrip
