-- ===== src/Bus/Iteration.antt =====
-- `Bus_Iter` of Interface/src/Bus.c, over the callbacks that caches and memory register with it.
mod Defs
pub mod Quiet
pub mod Owned
pub mod Words
pub use Defs.{Callbacks, Platform}
unfoldable pub use Defs.{
  check_shared_line, check_cache_snooping, word_packet, deliver, complete, print_bus_status,
  respond, transfer, release, idle, start, iter, calls_back,
}
