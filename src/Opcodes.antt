-- ===== src/Opcodes.antt =====
-- Core/src/Opcodes.c and Core/include/Opcodes.h: what each instruction computes.
-- A function of the C code takes a pointer to its parameters; here it takes what they point to and
-- returns it anew. A shift by 32 or more is undefined in C, and has no result.
pub mod Code
pub mod Arithmetic
pub mod Branch
pub mod Shift
pub mod Words
use multicore_proccessor.Common.{
  ℕ, ◌+◌, ◌-◌, ◌*◌, ◌/◌, ◌^◌, bit_and, bit_or, bit_xor, Bool, ◌&&◌, ◌||◌, Option, none, some, List,
  [], ◌∷◌, ltb, leb, ◌==◌, if◌then◌else◌, u16, u32, bits, defined, ◌>>◌, ◌>>=◌, get_elem?, not,
}

-- `Opcode_function_params_s`: `rd` and `pc` are what those pointers lead to. The fields `memory_p`
-- and `halt` are read by no function.
pub record Params : Type 0 where
  pub rd : ℕ
  pub rs : ℕ
  pub rt : ℕ
  pub pc : ℕ

abbrev pub OpcodeFunction : Type 0
OpcodeFunction = Params → Option Params

unfoldable pub add : OpcodeFunction
add p = some (record p { rd = u32 (p.rs + p.rt) })

unfoldable pub sub : OpcodeFunction
sub p = some (record p { rd = u32 (p.rs + 2 ^ 32 - p.rt) })

unfoldable pub and : OpcodeFunction
and p = some (record p { rd = bit_and p.rs p.rt })

unfoldable pub or : OpcodeFunction
or p = some (record p { rd = bit_or p.rs p.rt })

unfoldable pub xor : OpcodeFunction
xor p = some (record p { rd = bit_xor p.rs p.rt })

unfoldable pub multiply : OpcodeFunction
multiply p = some (record p { rd = u32 (p.rs * p.rt) })

unfoldable pub logic_shift_left : OpcodeFunction
logic_shift_left p = do defined (ltb p.rt 32); some (record p { rd = u32 (p.rs * 2 ^ p.rt) })

-- `(int)rs >> k` on the bit pattern of `rs`: the shift of a negative number is that of its
-- complement, complemented again.
abbrev pub shift_signed : ℕ → ℕ → ℕ
shift_signed rs k = if ltb rs (2 ^ 31) then rs / 2 ^ k else 2 ^ 32 - 1 - (2 ^ 32 - 1 - rs) / 2 ^ k

unfoldable pub arithmetic_shift_right : OpcodeFunction
arithmetic_shift_right p = do defined (ltb p.rt 32); some (record p { rd = shift_signed p.rs p.rt })

unfoldable pub logic_shift_right : OpcodeFunction
logic_shift_right p = do defined (ltb p.rt 32); some (record p { rd = p.rs / 2 ^ p.rt })

-- `(uint16_t)(*params->rd & 0x1FF)`: the mask keeps the low nine bits.
abbrev pub target : ℕ → ℕ
target rd = u16 (bits rd 0 9)

unfoldable pub branch_equal : OpcodeFunction
branch_equal p = some (if p.rs == p.rt then record p { pc = target p.rd } else p)

unfoldable pub branch_not_equal : OpcodeFunction
branch_not_equal p = some (if not (p.rs == p.rt) then record p { pc = target p.rd } else p)

-- The comparisons are those of `uint32_t`.
unfoldable pub branch_less_then : OpcodeFunction
branch_less_then p = some (if ltb p.rs p.rt then record p { pc = target p.rd } else p)

unfoldable pub branch_greater_than : OpcodeFunction
branch_greater_than p = some (if ltb p.rt p.rs then record p { pc = target p.rd } else p)

unfoldable pub branch_less_equal : OpcodeFunction
branch_less_equal p = some (if leb p.rs p.rt then record p { pc = target p.rd } else p)

unfoldable pub branch_grater_equal : OpcodeFunction
branch_grater_equal p = some (if leb p.rt p.rs then record p { pc = target p.rd } else p)

-- `rd` is overwritten by `pc` before the target is read from it.
unfoldable pub jump_and_link : OpcodeFunction
jump_and_link p = let q = record p { rd = p.pc } in some (record q { pc = target q.rd })

-- The array `OpcodeMapping` of 21 pointers. Its initialiser names the first 16, so the rest are null:
-- the inner `none`. The outer `none` is a read past its end.
abbrev opcode_functions : List (Option OpcodeFunction)
opcode_functions =
    some add
    ∷ some sub
    ∷ some and
    ∷ some or
    ∷ some xor
    ∷ some multiply
    ∷ some logic_shift_left
    ∷ some arithmetic_shift_right
    ∷ some logic_shift_right
    ∷ some branch_equal
    ∷ some branch_not_equal
    ∷ some branch_less_then
    ∷ some branch_greater_than
    ∷ some branch_less_equal
    ∷ some branch_grater_equal
    ∷ some jump_and_link
    ∷ none
    ∷ none
    ∷ none
    ∷ none
    ∷ none
    ∷ []

unfoldable pub opcode_mapping : ℕ → Option (Option OpcodeFunction)
opcode_mapping opcode = get_elem? opcode_functions opcode

unfoldable pub is_branch_resulotion : ℕ → Bool
is_branch_resulotion opcode = leb Code.beq opcode && ltb opcode Code.lw

unfoldable pub is_memory_command : ℕ → Bool
is_memory_command opcode = opcode == Code.lw || opcode == Code.sw

-- `OpcodeMapping[opcode](params)`: the call that decode prepares and execute makes. A null pointer or
-- an index past the table has no result.
unfoldable pub dispatch : ℕ → OpcodeFunction
unfolding opcode_mapping
dispatch opcode p = do entry ← opcode_mapping opcode; operation ← entry; operation p
