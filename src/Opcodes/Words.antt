-- ===== src/Opcodes/Words.antt =====
-- The width of what the instructions of Core/src/Opcodes.c leave in their parameters.
use multicore_proccessor.Common.{
  ℕ, zero, suc, ◌+◌, ◌^◌, ◌≤◌, ◌≡◌, ◌∙◌, Option, none, some, arith, IsWord, ◌⊎◌, inl, inr, ◌>>=◌,
  ap, ◌-◌, ◌<◌,
}
use multicore_proccessor.Opcodes.{
  Params, OpcodeFunction, dispatch, opcode_mapping, branch_equal, branch_not_equal,
  branch_less_then, branch_greater_than, branch_less_equal, branch_grater_equal, jump_and_link,
}
use multicore_proccessor.Opcodes.Code
use multicore_proccessor.Opcodes.Arithmetic.{dispatch-IsWordResult, dispatch-eq-none}

-- What the parameters of an instruction lead to, of 32 bits, and the program counter, of 16.
pub record HasWords (p : Params) : Type 0 where
  pub rd : IsWord p.rd
  pub rs : IsWord p.rs
  pub rt : IsWord p.rt
  pub pc : p.pc < 2 ^ 16

abbrev pub IsBounded : OpcodeFunction → Type 0
IsBounded f = (p out : Params) → HasWords p → f p ≡ some out → HasWords out

-- A null pointer is never called.
abbrev pub AreBounded : Option OpcodeFunction → Type 0
AreBounded none = Unit {0}
AreBounded (some f) = IsBounded f

no_entry :
    {A : Type 0} (opcode : ℕ) (p : Params) {out : Params}
    → dispatch opcode p ≡ some out
    → Code.lw ≤ opcode
    → A
no_entry opcode p e h = let e' = (dispatch-eq-none opcode p).1 (inr h) in absurd (cc (e, e'))

branches :
    (n : ℕ) (p : Params) {out : Params}
    → dispatch (9 + n) p ≡ some out
    → (out.pc ≡ p.pc ⊎ out.pc < 2 ^ 9)
      × (out.rd ≡ p.rd ⊎ out.rd ≡ p.pc)
      × (out.rs ≡ p.rs)
      × (out.rt ≡ p.rt)
unfolding dispatch branch_equal branch_not_equal branch_less_then branch_greater_than
    branch_less_equal branch_grater_equal jump_and_link
branches zero p e = ground arith
branches (suc zero) p e = ground arith
branches (suc (suc zero)) p e = ground arith
branches (suc (suc (suc zero))) p e = ground arith
branches (suc (suc (suc (suc zero)))) p e = ground arith
branches (suc (suc (suc (suc (suc zero))))) p e = ground arith
branches (suc (suc (suc (suc (suc (suc zero)))))) p e = ground arith
branches (suc (suc (suc (suc (suc (suc (suc n))))))) p e =
    no_entry (9 + suc (suc (suc (suc (suc (suc (suc n))))))) p e (omega arith)

le_or_lt : (a b : ℕ) → (a ≤ b) ⊎ (b < a)
le_or_lt a b = ground arith

dispatch-HasWords : (opcode : ℕ) → IsBounded (dispatch opcode)
dispatch-HasWords opcode p out h e = elim (le_or_lt opcode Code.srl) [
  | inl low ↦
      let (rd, pc, rs, rt) = dispatch-IsWordResult opcode p low h.rs h.rt e in
      record {
        rd = rd;
        rs = ground (arith, rs, h.rs);
        rt = ground (arith, rt, h.rt);
        pc = ground (arith, pc, h.pc);
      }
  | inr high ↦
      let (pc, rd, rs, rt) =
        branches (opcode - 9) p (ap (λ (n : ℕ). dispatch n p) (omega (arith, high)) ∙ e) in
      record {
        rd = ground (arith, rd, h.rd, h.pc);
        rs = ground (arith, rs, h.rs);
        rt = ground (arith, rt, h.rt);
        pc = ground (arith, pc, h.pc);
      }
]

-- What decode finds in the table.
pub opcode_mapping-AreBounded :
    (opcode : ℕ) (entry : Option OpcodeFunction)
    → opcode_mapping opcode ≡ some entry
    → AreBounded entry
unfolding dispatch
opcode_mapping-AreBounded opcode none e = tt
opcode_mapping-AreBounded opcode (some f) e = λ p out h runs. dispatch-HasWords opcode p out h (
    ap (λ (m : Option (Option OpcodeFunction)). m >>= λ entry. entry >>= λ operation. operation p) e
    ∙ runs)
