-- ===== src/Bus/Iteration/Words.antt =====
-- The width of the words that `Bus_Iter` of Interface/src/Bus.c moves, over its callbacks.
use multicore_proccessor.Common.{
  ℕ, zero, suc, ◌+◌, ◌≡◌, refl, sym, Bool, true, false, not, ◌&&◌, ◌||◌, List, [], ◌∷◌, ◌++◌, arith,
  IsWord, update, update-all, if-all, ◌==◌, if◌then◌else◌,
}
use mathlib.Core.Path.{subst}
use multicore_proccessor.Bus.Packet.{Packet, number_of_cores, invalid_originator}
use multicore_proccessor.Bus.State.{Bus, add_transaction, fifo_is_empty, fifo_dequeue}
use multicore_proccessor.Bus.Iteration.Defs.{
  Callbacks, Platform, check_cache_snooping, check_shared_line, word_packet, deliver, complete,
  print_bus_status, respond, exchange, transfer_word, transfer, take_packet, begin, idle, proceed,
  release, start, iter,
}

abbrev pub IsWordPacket : Packet → Type 0
IsWordPacket p = IsWord p.bus_data

abbrev pub HasWordPackets : List Packet → Type 0
HasWordPackets [] = Unit {0}
HasWordPackets (p ∷ q) = IsWordPacket p × HasWordPackets q

pub record HasWords (b : Bus) : Type 0 where
  pub current : IsWordPacket b.current_packet
  pub queue : HasWordPackets b.queue

append-HasWordPackets :
    (q : List Packet) (p : Packet)
    → HasWordPackets q
    → IsWordPacket p
    → HasWordPackets (q ++ p ∷ [])
append-HasWordPackets [] p h k = (k, tt)
append-HasWordPackets (x ∷ q) p h k = (h.0, append-HasWordPackets q p h.1 k)

-- It is a matter of the current packet and the queue alone.
along-HasWords :
    {b b' : Bus}
    → b'.current_packet ≡ b.current_packet
    → b'.queue ≡ b.queue
    → HasWords b
    → HasWords b'
along-HasWords e q h = record {
  current = subst IsWordPacket (sym e) h.current;
  queue = subst HasWordPackets (sym q) h.queue;
}

pub add_transaction-HasWords :
    (b : Bus) (p : Packet) → HasWords b → IsWordPacket p → HasWords (add_transaction b p)
unfolding add_transaction
add_transaction-HasWords b p h k =
    along-HasWords {b = record b { queue = b.queue ++ p ∷ [] }} (ground arith) (ground arith)
      (record { current = h.current; queue = append-HasWordPackets b.queue p h.queue k })

release-HasWords : (b : Bus) → HasWords b → HasWords (release b)
unfolding release
release-HasWords b h = along-HasWords {b = b} (ground arith) (ground arith) h

complete-HasWords : (finished : Bool) (b : Bus) → HasWords b → HasWords (complete finished b)
unfolding complete
complete-HasWords true b h = along-HasWords {b = b} refl refl h
complete-HasWords false b h = h

-- What the callbacks keep of the caches, `IsGood`, and of the memory, `IsFine`.
module _ {C M : Type 0} (IsGood : C → Type 0) (IsFine : M → Type 0) (k : Callbacks C M) where
  pub record KeepWords : Type 0 where
    pub snooping :
        (c : C) (p : Packet) (offset : ℕ)
        → IsGood c
        → IsWordPacket p
        → let (_, c', p') = k.snooping c p offset in IsGood c' × IsWordPacket p'
    pub response :
        (c : C) (p : Packet) (offset : ℕ)
        → IsGood c
        → IsWordPacket p
        → IsGood (k.response c p offset).1
    pub memory :
        (m : M) (p : Packet) (direct : Bool)
        → IsFine m
        → IsWordPacket p
        → let (_, m', p') = k.memory m p direct in IsFine m' × IsWordPacket p'

  pub record HoldsWords (s : Platform C M) : Type 0 where
    pub bus : HasWords s.bus
    pub caches : (i : ℕ) → IsGood (s.caches i)
    pub memory : IsFine s.memory

  module _ (keep : KeepWords) where
    check_cache_snooping-words :
        (n i : ℕ) (caches : ℕ → C) (p : Packet) (offset : ℕ) (responded : Bool)
        → ((j : ℕ) → IsGood (caches j))
        → IsWordPacket p
        → let (_, caches', p') = check_cache_snooping k n i caches p offset responded in
          ((j : ℕ) → IsGood (caches' j)) × IsWordPacket p'
    unfolding check_cache_snooping
    check_cache_snooping-words zero i caches p offset responded h w = (h, w)
    check_cache_snooping-words (suc n) i caches p offset responded h w =
        let (r, c, q) = k.snooping (caches i) p offset in
        let (good, words) = keep.snooping (caches i) p offset (h i) w in
        check_cache_snooping-words n (i + 1) (update caches i c) q offset (responded || r)
          (update-all IsGood caches i c h good) words

    deliver-HoldsWords :
        (s : Platform C M) (p : Packet) → HoldsWords s → IsWordPacket p → HoldsWords (deliver k s p)
    unfolding deliver print_bus_status
    deliver-HoldsWords s p h w =
        let origid = s.bus.current_packet.bus_origid in
        record {
          bus =
              complete-HasWords (k.response (s.caches origid) p s.bus.address_offset).0
                (record (print_bus_status s.bus p) {
                  address_offset = (k.response (s.caches origid) p s.bus.address_offset).2;
                })
                (record { current = h.bus.current; queue = h.bus.queue });
          caches =
              update-all IsGood s.caches origid
                (k.response (s.caches origid) p s.bus.address_offset).1 h.caches
                (keep.response (s.caches origid) p s.bus.address_offset (h.caches origid) w);
          memory = h.memory;
        }

    respond-HoldsWords :
        (s : Platform C M) (r : Bool × M × Packet)
        → HoldsWords s
        → IsFine r.1
        → IsWordPacket r.2
        → HoldsWords (respond k s r)
    unfolding respond
    respond-HoldsWords s (response, m, p) h f w =
        let seen : HoldsWords (record s { memory = m }) = record {
          bus = h.bus;
          caches = h.caches;
          memory = f;
        } in
        if-all HoldsWords response (deliver k (record s { memory = m }) p) (record s { memory = m })
          (deliver-HoldsWords (record s { memory = m }) p seen w) seen

    exchange-HoldsWords :
        (s : Platform C M) (modified : Bool) (r : Bool × (ℕ → C) × Packet)
        → HoldsWords s
        → ((j : ℕ) → IsGood (r.1 j))
        → IsWordPacket r.2
        → HoldsWords (exchange k s modified r)
    unfolding exchange
    exchange-HoldsWords s modified (responded, caches, p) h good w =
        let (fine, words) = keep.memory s.memory p modified h.memory w in
        respond-HoldsWords (record s { caches = caches }) (k.memory s.memory p modified)
          (record { bus = h.bus; caches = good; memory = h.memory }) fine words

    transfer-HoldsWords : (s : Platform C M) → HoldsWords s → HoldsWords (transfer k s)
    unfolding transfer transfer_word word_packet
    transfer-HoldsWords s h =
        let (shared, modified) =
          check_shared_line k number_of_cores 0 s.caches s.bus.current_packet false false in
        let (good, words) =
          check_cache_snooping-words number_of_cores 0 s.caches (word_packet s.bus shared)
            s.bus.address_offset false h.caches h.bus.current in
        if-all HoldsWords (modified && s.bus.is_first_shared)
          (record s { bus = record s.bus { is_first_shared = false } })
          (exchange k s modified (
            check_cache_snooping k number_of_cores 0 s.caches (word_packet s.bus shared)
              s.bus.address_offset false))
          (record {
            bus = record { current = h.bus.current; queue = h.bus.queue };
            caches = h.caches;
            memory = h.memory;
          })
          (exchange-HoldsWords s modified
            (check_cache_snooping k number_of_cores 0 s.caches (word_packet s.bus shared)
              s.bus.address_offset false)
            h good words)

    take_packet-HoldsWords :
        (s : Platform C M) (q : List Packet)
        → HoldsWords s
        → HasWordPackets q
        → HoldsWords (take_packet k s (fifo_dequeue q))
    unfolding take_packet fifo_dequeue start print_bus_status
    take_packet-HoldsWords s [] h w = h
    take_packet-HoldsWords s (item ∷ rest) h w =
        let dequeued = record s.bus { queue = rest } in
        if-all HoldsWords (item.bus_origid == invalid_originator)
          (record s { bus = record dequeued { current_packet = item } })
          (transfer k (record s { bus = start dequeued item }))
          (record {
            bus = record { current = w.0; queue = w.1 };
            caches = h.caches;
            memory = h.memory;
          })
          (transfer-HoldsWords (record s { bus = start dequeued item })
            (record {
              bus = record { current = w.0; queue = w.1 };
              caches = h.caches;
              memory = h.memory;
            }))

    begin-HoldsWords : (s : Platform C M) → HoldsWords s → HoldsWords (begin k s)
    unfolding begin
    begin-HoldsWords s h =
        take_packet-HoldsWords (record s { bus = record s.bus { is_first_shared = true } })
          s.bus.queue
          (record {
            bus = record { current = h.bus.current; queue = h.bus.queue };
            caches = h.caches;
            memory = h.memory;
          })
          h.bus.queue

    proceed-HoldsWords : (s : Platform C M) → HoldsWords s → HoldsWords (proceed k s)
    unfolding proceed idle
    proceed-HoldsWords s h =
        if-all HoldsWords (fifo_is_empty s.bus.queue && not s.bus.in_progress) (idle k s)
          (if s.bus.in_progress then transfer k s else begin k s)
          (record {
            bus = record { current = h.bus.current; queue = h.bus.queue };
            caches = h.caches;
            memory = h.memory;
          })
          (if-all HoldsWords s.bus.in_progress (transfer k s) (begin k s) (transfer-HoldsWords s h)
            (begin-HoldsWords s h))

    pub iter-HoldsWords : (s : Platform C M) → HoldsWords s → HoldsWords (iter k s)
    unfolding iter
    iter-HoldsWords s h =
        proceed-HoldsWords (record s { bus = release s.bus })
          (record { bus = release-HasWords s.bus h.bus; caches = h.caches; memory = h.memory })
