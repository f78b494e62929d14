-- ===== src/Bus/Queue.antt =====
-- The queue of Interface/src/Bus.c as it is in the C code: nodes in a store, linked both ways. The
-- packets enter at the head and leave at the tail.
pub mod Chain
pub mod Refine
use multicore_proccessor.Common.{ℕ, Bool, true, false, Option, none, some, update}
use multicore_proccessor.Bus.Packet.{Packet}

-- `queue_item_s`
pub record QueueItem : Type 0 where
  pub item : Packet
  pub parent : Option ℕ
  pub next : Option ℕ

-- The nodes by their addresses, `gQueueHead` and `gQueueTail`
pub record Fifo : Type 0 where
  pub nodes : ℕ → QueueItem
  pub head : Option ℕ
  pub tail : Option ℕ

abbrev is_null : Option ℕ → Bool
is_null none = true
is_null (some _) = false

unfoldable pub bus_fifo_is_empty : Fifo → Bool
bus_fifo_is_empty f = is_null f.head

-- `queue_item->item = item`, with both links null
unfoldable fresh : Packet → QueueItem
fresh item = record { item = item; parent = none; next = none }

unfoldable set_parent : (ℕ → QueueItem) → ℕ → Option ℕ → ℕ → QueueItem
set_parent nodes a link = update nodes a (record (nodes a) { parent = link })

unfoldable set_next : (ℕ → QueueItem) → ℕ → Option ℕ → ℕ → QueueItem
set_next nodes a link = update nodes a (record (nodes a) { next = link })

-- The new node becomes the head, in front of the old one if there is one.
unfoldable link_head : Fifo → ℕ → Packet → Option ℕ → Fifo
unfolding set_parent set_next fresh
link_head f a item none = record {
  nodes = update f.nodes a (fresh item);
  head = some a;
  tail = some a;
}
link_head f a item (some h) = record f {
  nodes = set_next (set_parent (update f.nodes a (fresh item)) h (some a)) a (some h);
  head = some a;
}

-- The address is what `malloc` returns, `none` the null pointer.
unfoldable pub bus_fifo_enqueue : Fifo → Option ℕ → Packet → Bool × Fifo
unfolding link_head
bus_fifo_enqueue f none item = (false, f)
bus_fifo_enqueue f (some a) item = (true, link_head f a item f.head)

-- The tail moves to the parent of the node `t`; `free` leaves the other nodes as they are.
unfoldable unlink_tail : Fifo → ℕ → Option ℕ → Fifo
unfolding set_parent set_next
unlink_tail f t none = record { nodes = set_parent f.nodes t none; head = none; tail = none }
unlink_tail f t (some b) = record f {
  nodes = set_parent (set_next f.nodes b none) t none;
  tail = some b;
}

unfoldable take_tail : Fifo → Option ℕ → Option (Packet × Fifo)
unfolding unlink_tail
take_tail f none = none
take_tail f (some t) = some ((f.nodes t).item, unlink_tail f t (f.nodes t).parent)

-- `none` where the C function returns false.
unfoldable pub bus_fifo_dequeue : Fifo → Option (Packet × Fifo)
unfolding take_tail
bus_fifo_dequeue f = take_tail f f.tail
