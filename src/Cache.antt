-- ===== src/Cache.antt =====
-- Core/src/Cache.c and Core/include/Cache.h: a direct-mapped cache of 64 blocks of eight words, with
-- its side of the MESI protocol. `Cache.Access` is what the core calls, `Cache.Snoop` what the bus
-- calls back, `Cache.Flush` the write-back at the end.
pub mod Address
pub mod State
pub mod Access
pub mod Snoop
pub mod Flush
pub mod ReadWrite
pub mod Misses
pub mod Protocol
pub mod Words
