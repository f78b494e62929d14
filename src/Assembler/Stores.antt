-- ===== src/Assembler/Stores.antt =====
-- Each store of asm.c keeps what holds of its variables.
use multicore_proccessor.Common.{
  ℕ, ◌+◌, ◌%◌, ◌^◌, ◌≤◌, ◌<◌, ◌≡◌, refl, Bool, true, false, Option, none, some, [], ◌∷◌, arith,
  ◌==◌, if◌then◌else◌, ltb, update, length,
}
use multicore_proccessor.Text.Bytes.{Bytes, before}
use multicore_proccessor.Text.Tokens.{is_free}
use multicore_proccessor.Assembler.Result.{Result}
use multicore_proccessor.Assembler.State.{Assembler, imem_size, dmem_size, label_size}
use multicore_proccessor.Assembler.Encode.{encode-fields}
use multicore_proccessor.Assembler.Line.{
  scan_number, value, store_word, word_directive, begins_alpha, cuts, save_jump, immediate, emit,
  save_label,
}
use multicore_proccessor.Assembler.Bounds.{
  Fits, Holds, Holds->>=, scan_number-Fits, value-Fits, defined-Holds, or_exit-Holds,
}
use multicore_proccessor.Assembler.Ready.{IsReady, with_token-Holds}

update-below :
    (words : ℕ → ℕ) (a w : ℕ)
    → ((i : ℕ) → words i < 2 ^ 32)
    → w < 2 ^ 32
    → (i : ℕ) → update words a w i < 2 ^ 32
update-below words a w h lt i = ground (arith, h i)

IsReady-addr :
    (s : Assembler) (addr : Option ℕ) → IsReady s → Fits addr → IsReady (record s { addr = addr })
IsReady-addr s addr h ha = record {
  pc = h.pc;
  imem = h.imem;
  dmem = h.dmem;
  above = h.above;
  jump = h.jump;
  label = h.label;
  addr = ha;
  word = h.word;
  imm = h.imm;
}

IsReady-imm :
    (s : Assembler) (imm : Option ℕ) → IsReady s → Fits imm → IsReady (record s { imm = imm })
IsReady-imm s imm h hi = record {
  pc = h.pc;
  imem = h.imem;
  dmem = h.dmem;
  above = h.above;
  jump = h.jump;
  label = h.label;
  addr = h.addr;
  word = h.word;
  imm = hi;
}

store_word-IsReady :
    (s : Assembler) (addr word : Option ℕ)
    → IsReady s
    → Fits addr
    → Fits word
    → Holds IsReady (store_word s addr word)
unfolding store_word
store_word-IsReady s none word h ha hw = tt
store_word-IsReady s (some a) none h ha hw = or_exit-Holds IsReady (ltb a dmem_size) _ (λ _. tt)
store_word-IsReady s (some a) (some w) h ha hw = or_exit-Holds IsReady (ltb a dmem_size) _ λ _.
    record {
      pc = h.pc;
      imem = h.imem;
      dmem = update-below s.dmem a w h.dmem hw;
      above = h.above;
      jump = h.jump;
      label = h.label;
      addr = ha;
      word = hw;
      imm = h.imm;
    }

pub word_directive-IsReady :
    (s : Assembler) (rest : Bytes) → IsReady s → Holds IsReady (word_directive s rest)
unfolding word_directive
word_directive-IsReady s rest h = with_token-Holds IsReady s rest _ h λ p more.
    Holds->>= Fits IsReady (scan_number s.addr p) _ (scan_number-Fits s.addr p h.addr) λ addr ha.
      with_token-Holds IsReady (record s { addr = addr }) more _ (IsReady-addr s addr h ha)
        λ q _.
          Holds->>= Fits IsReady (scan_number s.word q) _ (scan_number-Fits s.word q h.word)
            λ word hw.
              store_word-IsReady (record s { addr = addr }) addr word (IsReady-addr s addr h ha) ha
                hw

before-is_free : (kind : ℕ → Bool) (s : Bytes) → is_free kind (before kind s) ≡ true
unfolding is_free before
before-is_free kind [] = refl
before-is_free kind (c ∷ s) = ground (arith, before-is_free kind s)

length-before : (kind : ℕ → Bool) (s : Bytes) → length (before kind s) ≤ length s
unfolding before
length-before kind [] = omega arith
length-before kind (c ∷ s) = ground (arith, length-before kind s)

update-IsFree :
    (rows : ℕ → Bytes) (i : ℕ) (row : Bytes)
    → ((j : ℕ) → is_free cuts (rows j) ≡ true)
    → is_free cuts row ≡ true
    → (j : ℕ) → is_free cuts (update rows i row j) ≡ true
update-IsFree rows i row h new j = ground (arith, h j)

update-IsShort :
    (rows : ℕ → Bytes) (i : ℕ) (row : Bytes)
    → ((j : ℕ) → length (rows j) < label_size)
    → length row < label_size
    → (j : ℕ) → length (update rows i row j) < label_size
update-IsShort rows i row h new j = ground (arith, h j)

update-above :
    (words : ℕ → ℕ) (pc w : ℕ)
    → ((i : ℕ) → pc ≤ i → words i ≡ 0)
    → (i : ℕ) → pc + 1 ≤ i
    → update words pc w i ≡ 0
update-above words pc w h i le = ground (arith, h i)

pub if-Holds :
    (b : Bool) (m n : Result Assembler)
    → Holds IsReady m
    → Holds IsReady n
    → Holds IsReady (if b then m else n)
if-Holds true m n h k = h
if-Holds false m n h k = k

save_jump-IsReady : (s : Assembler) (p : Bytes) → IsReady s → Holds IsReady (save_jump s p)
unfolding save_jump
save_jump-IsReady s p h = defined-Holds IsReady (ltb s.pc imem_size) _ λ room.
    defined-Holds IsReady (ltb (length p) label_size) _ λ short. record {
      pc = h.pc;
      imem = h.imem;
      dmem = h.dmem;
      above = h.above;
      jump = update-IsFree s.jumplabels s.pc (before cuts p) h.jump (before-is_free cuts p);
      label = h.label;
      addr = h.addr;
      word = h.word;
      imm = omega arith;
    }

pub save_label-IsReady : (s : Assembler) (p : Bytes) → IsReady s → Holds IsReady (save_label s p)
unfolding save_label
save_label-IsReady s p h = defined-Holds IsReady (ltb s.pc imem_size) _ λ room.
    defined-Holds IsReady (ltb (length p) label_size) _ λ short. record {
      pc = h.pc;
      imem = h.imem;
      dmem = h.dmem;
      above = h.above;
      jump = h.jump;
      label =
          update-IsShort s.labels s.pc (before (λ c. c == b':') p) h.label
            (ground (arith, length-before (λ c. c == b':') p));
      addr = h.addr;
      word = h.word;
      imm = h.imm;
    }

pub immediate-IsReady : (s : Assembler) (p : Bytes) → IsReady s → Holds IsReady (immediate s p)
unfolding immediate
immediate-IsReady s p h = if-Holds (begins_alpha p) _ _ (save_jump-IsReady s p h) (
    Holds->>= Fits IsReady (scan_number s.imm p) _ (scan_number-Fits s.imm p h.imm)
      λ imm hi. IsReady-imm s imm h hi)

pub emit-IsReady :
    (s : Assembler) (op rd rs rt : ℕ)
    → op < 21
    → rd < 16
    → rs < 16
    → rt < 16
    → IsReady s
    → Holds IsReady (emit s op rd rs rt)
unfolding emit
emit-IsReady s op rd rs rt op_lt rd_lt rs_lt rt_lt h =
    Holds->>= (λ v. v < 2 ^ 32) IsReady (value s.imm) _ (value-Fits s.imm h.imm)
      λ v hv. defined-Holds IsReady (ltb s.pc imem_size) _ λ room.
        let (_, _, _, _, _, fits) =
          encode-fields op rd rs rt (v % 2 ^ 12) rd_lt rs_lt rt_lt (omega arith) (omega arith) in
        record {
          pc = ground arith;
          imem = update-below s.imem s.pc _ h.imem fits;
          dmem = h.dmem;
          above = update-above s.imem s.pc _ h.above;
          jump = h.jump;
          label = h.label;
          addr = h.addr;
          word = h.word;
          imm = omega arith;
        }
