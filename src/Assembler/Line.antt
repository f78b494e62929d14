-- ===== src/Assembler/Line.antt =====
-- One round of the loop over the lines in asm.c.
use multicore_proccessor.Common.{
  ℕ, ◌+◌, ◌*◌, ◌%◌, ◌^◌, bit_or, Bool, false, ◌&&◌, ◌||◌, Option, none, some, [], ◌∷◌, ltb, leb,
  ◌==◌, if◌then◌else◌, update, length,
}
use multicore_proccessor.Text.Bytes.{Bytes, codes, equal, has, before, strtok}
use multicore_proccessor.Text.Scan.{Scan, matched, mismatch, out_of_range, scan_hex, scan_decimal}
use multicore_proccessor.Assembler.Result.{
  Result, ok, exit, undefined, ◌>>=◌, ◌>>◌, defined, or_exit,
}
use multicore_proccessor.Assembler.Names.{find_op, find_register}
use multicore_proccessor.Assembler.State.{Assembler, imem_size, dmem_size, label_size}

-- The delimiters "\t ,"
abbrev pub is_delimiter : ℕ → Bool
is_delimiter c = c == 9 || c == b' ' || c == b','

abbrev pub is_alpha : ℕ → Bool
is_alpha c = (leb b'a' c && leb c b'z') || (leb b'A' c && leb c b'Z')

-- Goes on with the next token, or with the next line where there is none.
unfoldable pub with_token :
    Assembler → Bytes → (Bytes → Bytes → Result Assembler) → Result Assembler
unfolding strtok
with_token s rest k = elim (strtok is_delimiter rest) [ none ↦ ok s | some (p, more) ↦ k p more ]

-- Likewise where the token is no register.
unfoldable pub with_register : Assembler → Bytes → (ℕ → Bytes → Result Assembler) → Result Assembler
unfolding with_token find_register
with_register s rest k =
    with_token s rest λ p more. elim (find_register p) [ none ↦ ok s | some r ↦ k r more ]

-- The variable after the conversion that `sscanf` made.
unfoldable pub scanned : Option ℕ → Scan → Result (Option ℕ)
scanned old (matched v rest) = ok (some v)
scanned old mismatch = ok old
scanned old out_of_range = undefined

-- `p[0] == '0' && p[1] == 'x'`, and what stands behind.
abbrev pub hex_part : Bytes → Option Bytes
hex_part [] = none
hex_part (c ∷ []) = none
hex_part (c ∷ d ∷ rest) = if c == b'0' && d == b'x' then some rest else none

-- The number of a token: hexadecimal behind `0x`, and decimal if not.
unfoldable pub scan_number : Option ℕ → Bytes → Result (Option ℕ)
unfolding scanned scan_hex scan_decimal
scan_number old p = elim (hex_part p) [
  | none ↦ scanned old (scan_decimal p)
  | some digits ↦ scanned old (scan_hex digits)
]

-- The value of a variable.
abbrev pub value : Option ℕ → Result ℕ
value none = undefined
value (some v) = ok v

-- `addr < 0 || addr >= DMEM_SIZE`: a negative number has a pattern from `2 ^ 31` on.
unfoldable pub store_word : Assembler → Option ℕ → Option ℕ → Result Assembler
store_word s addr word = do
  a ← value addr
  or_exit (ltb a dmem_size)
  w ← value word
  ok (record s { dmem = update s.dmem a w; addr = addr; word = word })

-- `.word address data`
unfoldable pub word_directive : Assembler → Bytes → Result Assembler
unfolding with_token scan_number store_word
word_directive s rest = with_token s rest λ p more. do
  addr ← scan_number s.addr p
  let t = record s { addr = addr }
  with_token t more λ q _. do word ← scan_number t.word q; store_word t addr word

-- The bytes at which a jump label is cut: `'n'`, 0xd and 0xa.
abbrev pub cuts : ℕ → Bool
cuts c = c == b'n' || c == 13 || c == 10

-- A label in place of an immediate.
unfoldable pub save_jump : Assembler → Bytes → Result Assembler
unfolding before
save_jump s p = do
  defined (ltb s.pc imem_size)
  defined (ltb (length p) label_size)
  ok (record s { jumplabels = update s.jumplabels s.pc (before cuts p); imm = some 0 })

abbrev pub begins_alpha : Bytes → Bool
begins_alpha [] = false
begins_alpha (c ∷ _) = is_alpha c

-- The last operand: a token that begins with a letter is no hexadecimal number.
unfoldable pub immediate : Assembler → Bytes → Result Assembler
unfolding save_jump scan_number
immediate s p =
    if begins_alpha p
    then save_jump s p
    else (scan_number s.imm p >>= λ imm. ok (record s { imm = imm }))

-- `(op << 24) | (rd << 20) | (rs << 16) | (rt << 12) | imm`
unfoldable pub encode : ℕ → ℕ → ℕ → ℕ → ℕ → ℕ
encode op rd rs rt imm =
    bit_or (bit_or (bit_or (bit_or (op * 2 ^ 24) (rd * 2 ^ 20)) (rs * 2 ^ 16)) (rt * 2 ^ 12)) imm

-- `imm = sbs(imm, 11, 0)`, and the word that is stored.
unfoldable pub emit : Assembler → ℕ → ℕ → ℕ → ℕ → Result Assembler
unfolding encode
emit s op rd rs rt = do
  v ← value s.imm
  defined (ltb s.pc imem_size)
  let imm = v % 2 ^ 12
  ok (record s {
    imem = update s.imem s.pc (encode op rd rs rt imm);
    pc = s.pc + 1;
    imm = some imm;
  })

-- The operands of an operation.
unfoldable pub operands : Assembler → ℕ → Bytes → Result Assembler
unfolding with_register with_token immediate emit
operands s op rest = with_register s rest λ rd r1. with_register s r1 λ rs r2.
    with_register s r2 λ rt r3. with_token s r3 λ p _. immediate s p >>= λ t. emit t op rd rs rt

-- An operation by its name.
unfoldable pub instruction : Assembler → Bytes → Bytes → Result Assembler
unfolding find_op operands
instruction s p rest = elim (find_op p) [ none ↦ exit | some op ↦ operands s op rest ]

-- What stands behind a label, or on a line without one.
unfoldable pub statement : Assembler → Bytes → Bytes → Result Assembler
unfolding word_directive instruction equal
statement s p rest = if equal p (codes ".word") then word_directive s rest else instruction s p rest

-- `strcpy(labels[PC], p)`, cut at the colon.
unfoldable pub save_label : Assembler → Bytes → Result Assembler
unfolding before
save_label s p = do
  defined (ltb s.pc imem_size)
  defined (ltb (length p) label_size)
  ok (record s { labels = update s.labels s.pc (before (λ c. c == b':') p) })

-- A line up to its comment.
unfoldable pub assemble_text : Assembler → Bytes → Result Assembler
unfolding with_token save_label statement has
assemble_text s text = with_token s text λ p rest.
    if has b':' p
    then (save_label s p >>= λ t. with_token t rest λ q more. statement t q more)
    else statement s p rest

unfoldable pub assemble_line : Assembler → Bytes → Result Assembler
unfolding assemble_text before
assemble_line s line = assemble_text s (before (λ c. c == b'#') line)
