-- ===== src/Cache/Flush.antt =====
-- `Cache_FlushToMemory` of Core/src/Cache.c.
use multicore_proccessor.Common.{
  ℕ, zero, suc, ◌+◌, ◌-◌, ◌*◌, ◌^◌, ◌≤◌, ◌<◌, ◌≡◌, refl, ◌&&◌, leb, ltb, ◌==◌, if◌then◌else◌, arith,
  bit_or, bit_or_fields,
}
use multicore_proccessor.Memory.{Memory, direct_write, main_memory_size}
use multicore_proccessor.Cache.Address.{index_of, tag_of, slot, frame_size, block_size}
use multicore_proccessor.Cache.State.{CacheData, is_modified, line}

-- The inner loop, from `offset` on, of which `n` rounds are left.
flush_words : CacheData → ℕ → ℕ → ℕ → ℕ → Memory → Memory
unfolding direct_write
flush_words c frame base zero offset m = m
flush_words c frame base (suc n) offset m =
    flush_words c frame base n (offset + 1)
      (direct_write m (base + offset) (c.dsram (frame * block_size + offset)))

-- `(tag << 9) | (frame << 3)`
base_addr : ℕ → ℕ → ℕ
base_addr tag frame = bit_or (tag * 2 ^ 9) (frame * 2 ^ 3)

flush_frame : CacheData → ℕ → Memory → Memory
unfolding flush_words base_addr
flush_frame c frame m =
    let t = c.tsram frame in
    if is_modified t.mesi then flush_words c frame (base_addr t.tag frame) block_size 0 m else m

flush_frames : CacheData → ℕ → ℕ → Memory → Memory
unfolding flush_frame
flush_frames c zero frame m = m
flush_frames c (suc n) frame m = flush_frames c n (frame + 1) (flush_frame c frame m)

unfoldable pub flush_to_memory : CacheData → Memory → Memory
unfolding flush_frames
flush_to_memory c m = flush_frames c frame_size 0 m

-- Every tag is one that the bit-field of twelve bits can hold.
abbrev pub TagsFit : CacheData → Type 0
TagsFit c = (i : ℕ) → (c.tsram i).tag < 2 ^ 12

flush_words-words :
    (c : CacheData) (frame base n offset : ℕ) (m : Memory) (a : ℕ)
    → base + offset + n ≤ main_memory_size
    → (flush_words c frame base n offset m).words a ≡ (
        if leb (base + offset) a && ltb a (base + offset + n)
        then c.dsram (frame * block_size + (a - base))
        else m.words a)
unfolding flush_words direct_write
flush_words-words c frame base zero offset m a h = ground arith
flush_words-words c frame base (suc n) offset m a h = ground (
  arith,
  flush_words-words c frame base n (offset + 1)
      (direct_write m (base + offset) (c.dsram (frame * block_size + offset))) a,
)

base_addr_lem : (tag frame : ℕ) → frame < frame_size → base_addr tag frame ≡ tag * 512 + frame * 8
unfolding base_addr
base_addr_lem tag frame h = bit_or_fields 9 tag (frame * 2 ^ 3) (omega arith)

-- What the address of a modified line becomes, and what else stays.
abbrev flushed : CacheData → Memory → ℕ → ℕ
flushed c m a =
    if is_modified (line c a).mesi && (line c a).tag == tag_of a
    then c.dsram (slot a)
    else m.words a

flush_frame-words :
    (c : CacheData) (frame : ℕ) (m : Memory) (a : ℕ)
    → (c.tsram frame).tag < 2 ^ 12
    → frame < frame_size
    → a < main_memory_size
    → (flush_frame c frame m).words a ≡ (if index_of a == frame then flushed c m a else m.words a)
unfolding flush_frame
flush_frame-words c frame m a ht hf ha = ground (
  arith,
  base_addr_lem (c.tsram frame).tag frame,
  flush_words-words c frame (base_addr (c.tsram frame).tag frame) block_size 0 m a,
)

flush_frames-words :
    (c : CacheData) (n frame : ℕ) (m : Memory) (a : ℕ)
    → TagsFit c
    → frame + n ≤ frame_size
    → a < main_memory_size
    → (flush_frames c n frame m).words a ≡ (
        if leb frame (index_of a) && ltb (index_of a) (frame + n) then flushed c m a else m.words a)
unfolding flush_frames
flush_frames-words c zero frame m a fit h ha = ground arith
flush_frames-words c (suc n) frame m a fit h ha = ground (
  arith,
  flush_frames-words c n (frame + 1) (flush_frame c frame m) a fit,
  flush_frame-words c frame m a (fit frame),
)

flush_all-words :
    (c : CacheData) (n : ℕ) (m : Memory) (a : ℕ)
    → TagsFit c
    → a < main_memory_size
    → n ≡ frame_size
    → (flush_frames c n 0 m).words a ≡ flushed c m a
flush_all-words c n m a fit h e = ground (arith, flush_frames-words c n 0 m a fit)

-- After the write-back, a word of the memory is the cache's word if the cache holds its block modified,
-- and is what it was in every other case; the cache's tags are taken to fit their twelve bits.
pub flush_to_memory-words :
    (c : CacheData) (m : Memory) (a : ℕ)
    → TagsFit c
    → a < main_memory_size
    → (flush_to_memory c m).words a ≡ (
        if is_modified (line c a).mesi && (line c a).tag == tag_of a
        then c.dsram (slot a)
        else m.words a)
unfolding flush_to_memory
flush_to_memory-words c m a fit h = flush_all-words c frame_size m a fit h refl
