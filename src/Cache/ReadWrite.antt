-- ===== src/Cache/ReadWrite.antt =====
-- What a read and a write of Core/src/Cache.c do to the words and lines of the cache.
use multicore_proccessor.Common.{
  ℕ, ◌≡◌, ◌≢◌, ◌⊎◌, ◌↔◌, true, false, none, some, arith, if◌then◌else◌,
}
use multicore_proccessor.Cache.Address.{slot}
use multicore_proccessor.Cache.State.{Mesi, CacheData, Shared, line, holds}
use multicore_proccessor.Cache.Access.{busy, read_data, write_data}

-- A read brings a word exactly when no transaction of the core is pending and the cache holds the
-- address; it is then the cache's word. On every branch the words and the lines stay as they are.
pub read_data-outcome :
    (c : CacheData) (s : Shared) (a : ℕ)
    → ((read_data c s a).0
        ≡ (if busy s.bus c.id then none else if holds c a then some (c.dsram (slot a)) else none))
      × ((read_data c s a).1.dsram ≡ c.dsram)
      × ((read_data c s a).1.tsram ≡ c.tsram)
      × ((read_data c s a).1.id ≡ c.id)
unfolding read_data
read_data-outcome c s a = ground arith

-- A write succeeds exactly when no transaction of the core is pending and the cache holds the address
-- in a line that is exclusive or modified; the line is then modified, and the bus is left alone.
-- A write that does not succeed changes no word and no line.
pub write_data-ownership :
    (c : CacheData) (s : Shared) (a w : ℕ)
    → let (written, c', s') = write_data c s a w in
      ((written ≡ true) ↔ (
        (busy s.bus c.id ≡ false)
        × (holds c a ≡ true)
        × (((line c a).mesi ≡ Mesi.exclusive) ⊎ ((line c a).mesi ≡ Mesi.modified))))
      × (written ≡ true → ((line c' a).mesi ≡ Mesi.modified) × (s'.bus ≡ s.bus))
      × (written ≡ false → (c'.dsram ≡ c.dsram) × (c'.tsram ≡ c.tsram))
unfolding write_data
write_data-ownership c s a w = ground arith

-- After a write that succeeds, a read of the same address brings the word that was written. For any
-- other word of the cache, the read brings what it would have brought before.
pub read_data-write_data :
    (c : CacheData) (s : Shared) (a w b : ℕ)
    → (write_data c s a w).0 ≡ true
    → let (_, c', s') = write_data c s a w in
      ((read_data c' s' a).0 ≡ some w)
      × (slot b ≢ slot a → (read_data c' s' b).0 ≡ (read_data c s b).0)
unfolding read_data write_data
read_data-write_data c s a w b h = ground arith
