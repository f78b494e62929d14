-- ===== src/Assembler/Names.antt =====
-- The names of operations and registers in asm.c, and the loops that look them up.
use multicore_proccessor.Common.{ℕ, ◌+◌, ◌||◌, Option, none, some, List, [], ◌∷◌, if◌then◌else◌}
use multicore_proccessor.Text.Bytes.{Bytes, codes, equal}

-- `op_name`
abbrev pub op_name : List Bytes
op_name =
    codes "add"
    ∷ codes "sub"
    ∷ codes "and"
    ∷ codes "or"
    ∷ codes "xor"
    ∷ codes "mul"
    ∷ codes "sll"
    ∷ codes "sra"
    ∷ codes "srl"
    ∷ codes "beq"
    ∷ codes "bne"
    ∷ codes "blt"
    ∷ codes "bgt"
    ∷ codes "ble"
    ∷ codes "bge"
    ∷ codes "jal"
    ∷ codes "lw"
    ∷ codes "sw"
    ∷ codes "ll"
    ∷ codes "sc"
    ∷ codes "halt"
    ∷ []

-- `reg_name` and `reg_altname`, register by register
abbrev pub reg_names : List (Bytes × Bytes)
reg_names =
    (codes "$zero", codes "$zero")
    ∷ (codes "$imm", codes "$imm")
    ∷ (codes "$v0", codes "$r2")
    ∷ (codes "$a0", codes "$r3")
    ∷ (codes "$a1", codes "$r4")
    ∷ (codes "$t0", codes "$r5")
    ∷ (codes "$t1", codes "$r6")
    ∷ (codes "$t2", codes "$r7")
    ∷ (codes "$t3", codes "$r8")
    ∷ (codes "$s0", codes "$r9")
    ∷ (codes "$s1", codes "$r10")
    ∷ (codes "$s2", codes "$r11")
    ∷ (codes "$gp", codes "$r12")
    ∷ (codes "$sp", codes "$r13")
    ∷ (codes "$fp", codes "$r14")
    ∷ (codes "$ra", codes "$r15")
    ∷ []

-- The first name that is equal, counted from `i`.
unfoldable pub index_from : ℕ → Bytes → List Bytes → Option ℕ
index_from i p [] = none
index_from i p (name ∷ names) =
    let rest = index_from (i + 1) p names in if equal p name then some i else rest

unfoldable pub register_from : ℕ → Bytes → List (Bytes × Bytes) → Option ℕ
register_from i p [] = none
register_from i p ((name, alternative) ∷ names) =
    let rest = register_from (i + 1) p names in
    if equal p name || equal p alternative then some i else rest

-- `none` where the loop ends at 21.
unfoldable pub find_op : Bytes → Option ℕ
unfolding index_from equal
find_op p = index_from 0 p op_name

-- `none` where the loop ends at 16.
unfoldable pub find_register : Bytes → Option ℕ
unfolding register_from equal
find_register p = register_from 0 p reg_names
