-- ===== src/Cache/Address.antt =====
-- `cache_addess_s` of Core/src/Cache.c: the fields of a word address, and where a word stands in the
-- cache's memories.
use multicore_proccessor.Common.{ℕ, ◌+◌, ◌*◌, ◌%◌, ◌^◌, ◌<◌, ◌≡◌, arith, bits}

abbrev pub cache_size : ℕ
cache_size = 512

abbrev pub block_size : ℕ
block_size = 8

abbrev pub frame_size : ℕ
frame_size = 64

abbrev pub offset_of : ℕ → ℕ
offset_of address = bits address 0 3

abbrev pub index_of : ℕ → ℕ
index_of address = bits address 3 6

abbrev pub tag_of : ℕ → ℕ
tag_of address = bits address 9 12

-- The union with `fields.tag`, `fields.index` and `fields.offset` given, and its other bits zero.
abbrev pub address_of : ℕ → ℕ → ℕ → ℕ
address_of tag index offset = tag % 2 ^ 12 * 2 ^ 9 + index % 2 ^ 6 * 2 ^ 3 + offset % 2 ^ 3

-- `index * BLOCK_SIZE + offset`
abbrev pub slot : ℕ → ℕ
slot address = index_of address * block_size + offset_of address

-- The fields of an address are those it was made of, and every 21-bit address is made of its fields.
pub address_fields :
    (tag index offset address : ℕ)
    → tag < 2 ^ 12
    → index < frame_size
    → offset < block_size
    → address < 2 ^ 21
    → (tag_of (address_of tag index offset) ≡ tag)
      × (index_of (address_of tag index offset) ≡ index)
      × (offset_of (address_of tag index offset) ≡ offset)
      × (address_of (tag_of address) (index_of address) (offset_of address) ≡ address)
address_fields tag index offset address ht hi ho ha = omega arith

-- Every address leads inside both memories.
pub slot-lt : (address : ℕ) → (slot address < cache_size) × (index_of address < frame_size)
slot-lt address = omega arith
