-- ===== src/Assembler/Operands.antt =====
-- The operands of an instruction, as asm.c finds them one by one in the text of a line.
use multicore_proccessor.Common.{
  ℕ, ◌+◌, ◌%◌, ◌^◌, ◌<◌, ◌≡◌, refl, sym, ap, ◌∙◌, Bool, true, Option, some, [], ◌∷◌, ◌++◌, arith,
  update, ltb,
}
use mathlib.Core.Path.{subst}
use multicore_proccessor.Text.Bytes.{Bytes, strtok}
use multicore_proccessor.Text.Scan.{digit}
use multicore_proccessor.Text.Print.{hex_word}
use multicore_proccessor.Text.RoundTrip.{scan_hex-hex_word}
use multicore_proccessor.Text.Tokens.{
  is_free, is_free-append, is_free_weaken, strtok-delimiter, strtok-word, strtok_last,
}
use multicore_proccessor.Assembler.Result.{Result, ok, ◌>>=◌, defined}
use multicore_proccessor.Assembler.Names.{find_register}
use multicore_proccessor.Assembler.State.{Assembler, imem_size}
use multicore_proccessor.Assembler.Spelling.{is_mark, IsName, hex_word-free}
use multicore_proccessor.Assembler.Line.{
  is_delimiter, with_token, with_register, scanned, scan_number, immediate, encode, emit, operands,
}

-- The immediate in eight hexadecimal digits, and the end of the line.
abbrev pub last_operand : ℕ → Bytes
last_operand imm = b'0' ∷ b'x' ∷ (hex_word imm ++ b'\n' ∷ [])

-- A name with a comma and a space behind it.
abbrev pub operand : Bytes → Bytes → Bytes
operand name rest = name ++ b',' ∷ b' ' ∷ rest

no_delimiter : (s : Bytes) → is_free is_mark s ≡ true → is_free is_delimiter s ≡ true
no_delimiter s = is_free_weaken is_mark is_delimiter s (λ c h. ground arith)

pub strtok-IsName :
    (name : Bytes) (d : ℕ) (rest : Bytes)
    → IsName name
    → is_delimiter d ≡ true
    → strtok is_delimiter (name ++ d ∷ rest) ≡ some (name, rest)
strtok-IsName name d rest n h =
    subst (λ (s : Bytes). strtok is_delimiter (s ++ d ∷ rest) ≡ some (s, rest)) (sym n.spelled)
      (strtok-word is_delimiter n.first n.others d rest
        (subst (λ (s : Bytes). is_free is_delimiter s ≡ true) n.spelled (no_delimiter name n.free))
        h)

pub with_token-some :
    (s : Assembler) (rest : Bytes) (k : Bytes → Bytes → Result Assembler) {p more : Bytes}
    → strtok is_delimiter rest ≡ some (p, more)
    → with_token s rest k ≡ k p more
unfolding with_token
with_token-some s rest k h = ground arith

with_register-some :
    (s : Assembler) (rest : Bytes) (k : ℕ → Bytes → Result Assembler) {p more : Bytes} {r : ℕ}
    → strtok is_delimiter rest ≡ some (p, more)
    → find_register p ≡ some r
    → with_register s rest k ≡ k r more
unfolding with_register
with_register-some s rest k h f = ground arith

with_register-operand :
    (s : Assembler) (name rest : Bytes) (k : ℕ → Bytes → Result Assembler) {r : ℕ}
    → IsName name
    → find_register name ≡ some r
    → (with_register s (operand name rest) k ≡ k r (b' ' ∷ rest))
      × (with_register s (b' ' ∷ operand name rest) k ≡ k r (b' ' ∷ rest))
with_register-operand s name rest k n f =
    let found = strtok-IsName name b',' (b' ' ∷ rest) n refl in
    (
      with_register-some s (operand name rest) k found f,
      with_register-some s (b' ' ∷ operand name rest) k
          (strtok-delimiter is_delimiter b' ' (operand name rest) refl ∙ found) f,
    )

scan_number-hex :
    (old : Option ℕ) (v : ℕ) → v < 2 ^ 32 → scan_number old (last_operand v) ≡ ok (some v)
unfolding scan_number digit
scan_number-hex old v lt = ap (scanned old) (scan_hex-hex_word v (b'\n' ∷ []) lt refl)

-- What an instruction does to the assembler's variables.
abbrev pub assembled : Assembler → ℕ → ℕ → ℕ → ℕ → ℕ → Assembler
assembled s op rd rs rt imm = record s {
  imem = update s.imem s.pc (encode op rd rs rt (imm % 2 ^ 12));
  pc = s.pc + 1;
  imm = some (imm % 2 ^ 12);
}

ltb-true : (a b : ℕ) → a < b → ltb a b ≡ true
ltb-true a b h = ground arith

immediate-emit :
    (s : Assembler) (op rd rs rt imm : ℕ)
    → imm < 2 ^ 32
    → s.pc < imem_size
    → (immediate s (last_operand imm) >>= λ t. emit t op rd rs rt)
      ≡ ok (assembled s op rd rs rt imm)
unfolding immediate emit
immediate-emit s op rd rs rt imm lt room =
    ap
      (λ (r : Result (Option ℕ)).
        (r >>= λ i. ok (record s { imm = i })) >>= λ t. emit t op rd rs rt)
      (scan_number-hex s.imm imm lt)
    ∙ ap (λ (b : Bool). defined b >>= λ _. ok (assembled s op rd rs rt imm))
        (ltb-true s.pc imem_size room)

last_operand-free : (imm : ℕ) → is_free is_delimiter (last_operand imm) ≡ true
unfolding is_free
last_operand-free imm =
    is_free-append is_delimiter (hex_word imm) (b'\n' ∷ [])
      (no_delimiter (hex_word imm) (hex_word-free imm)) refl

strtok-last_operand :
    (imm : ℕ) → strtok is_delimiter (b' ' ∷ last_operand imm) ≡ some (last_operand imm, [])
strtok-last_operand imm =
    strtok-delimiter is_delimiter b' ' (last_operand imm) refl
    ∙ strtok_last is_delimiter b'0' (b'x' ∷ (hex_word imm ++ b'\n' ∷ [])) (last_operand-free imm)

module _ (s : Assembler) (op : ℕ) (rd_name rs_name rt_name : Bytes) (imm : ℕ) {rd rs rt : ℕ}
    (rd_is : IsName rd_name × (find_register rd_name ≡ some rd))
    (rs_is : IsName rs_name × (find_register rs_name ≡ some rs))
    (rt_is : IsName rt_name × (find_register rt_name ≡ some rt)) (fits : imm < 2 ^ 32)
    (room : s.pc < imem_size) where
  pub operands-assembled :
      operands s op (operand rd_name (operand rs_name (operand rt_name (last_operand imm))))
      ≡ ok (assembled s op rd rs rt imm)
  unfolding operands
  operands-assembled =
      (with_register-operand s rd_name (operand rs_name (operand rt_name (last_operand imm))) _
        rd_is.0 rd_is.1).0
      ∙ (with_register-operand s rs_name (operand rt_name (last_operand imm)) _ rs_is.0 rs_is.1).1
      ∙ (with_register-operand s rt_name (last_operand imm) _ rt_is.0 rt_is.1).1
      ∙ with_token-some s (b' ' ∷ last_operand imm)
          (λ p _. immediate s p >>= λ t. emit t op rd rs rt) (strtok-last_operand imm)
      ∙ immediate-emit s op rd rs rt imm fits room
