-- ===== src/Bus/Queue/Refine.antt =====
-- The queue of Interface/src/Bus.c as a list of packets.
use multicore_proccessor.Common.{
  ℕ, ◌≡◌, ◌≢◌, refl, sym, ap, true, false, Option, none, some, List, [], ◌∷◌, ◌++◌, arith, update,
  update_self,
}
use mathlib.Core.Path.{subst}
use multicore_proccessor.Bus.Packet.{Packet}
use multicore_proccessor.Bus.State.{fifo_is_empty, fifo_enqueue, fifo_dequeue}
use multicore_proccessor.Bus.Queue.{
  QueueItem, Fifo, bus_fifo_is_empty, bus_fifo_enqueue, bus_fifo_dequeue, set_next, set_parent,
  fresh, link_head, unlink_tail, take_tail, is_null,
}
use multicore_proccessor.Bus.Queue.Chain.{
  Outside, Chain, Agree, Chain-agree, AgreeOn-Outside, AgreeOn-trans, AgreeOn-all, Chain-last-ne,
  Linked, Chain-snoc,
}

-- The queue consists of the nodes of the list, the oldest first, and holds the packets.
abbrev pub Represents : Fifo → List ℕ → List Packet → Type 0
Represents f [] xs = (f.head ≡ none) × (f.tail ≡ none) × (xs ≡ [])
Represents f (t ∷ rest) xs =
    (h : ℕ) × (f.tail ≡ some t) × (f.head ≡ some h) × Chain f.nodes t rest xs h

enqueue-Linked :
    (n : ℕ → QueueItem) (h a : ℕ) (item : Packet)
    → h ≢ a
    → Linked (set_next (set_parent (update n a (fresh item)) h (some a)) a (some h)) n h a item
unfolding set_next set_parent fresh
enqueue-Linked n h a item ne = record {
  new_parent = ground arith;
  new_item = ground arith;
  old_parent = ground arith;
  old_item = ground arith;
  others = λ b neh nea. ground arith;
}

-- An enqueue with a node that is not in the queue appends the packet, and returns true; one whose
-- allocation fails returns false and leaves the queue as it is.
pub bus_fifo_enqueue-Represents :
    (f : Fifo) (l : List ℕ) (xs : List Packet) (a : ℕ) (item : Packet)
    → Represents f l xs
    → Outside a l
    → ((bus_fifo_enqueue f (some a) item).0 ≡ true)
      × Represents (bus_fifo_enqueue f (some a) item).1 (l ++ a ∷ []) (fifo_enqueue xs item)
      × (bus_fifo_enqueue f none item ≡ (false, f))
unfolding bus_fifo_enqueue fifo_enqueue fresh link_head
bus_fifo_enqueue-Represents f [] xs a item r o =
    let new = update_self f.nodes a (fresh item) in
    let alone : Chain (update f.nodes a (fresh item)) a [] (item ∷ []) a =
      (refl, ap (λ (q : QueueItem). q.parent) new, ap (λ (q : QueueItem). q.item) new, refl) in
    (
      refl,
      subst (λ g. Represents (link_head f a item g) (a ∷ []) (xs ++ item ∷ [])) (sym r.0)
          (
            a,
            refl,
            refl,
            subst
                (λ (ys : List Packet).
                  Chain (update f.nodes a (fresh item)) a [] (ys ++ item ∷ []) a)
                (sym r.2) alone,
          ),
      refl,
    )
bus_fifo_enqueue-Represents f (t ∷ rest) xs a item (h, tail, head, c) o =
    let linked = enqueue-Linked f.nodes h a item (Chain-last-ne f.nodes t rest xs c o) in
    (
      refl,
      subst (λ g. Represents (link_head f a item g) (t ∷ rest ++ a ∷ []) (xs ++ item ∷ []))
          (sym head) (a, tail, refl, Chain-snoc _ f.nodes t rest xs linked o c),
      refl,
    )

dequeue-Agree :
    (n : ℕ → QueueItem) (b : ℕ) (link : Option ℕ) (c : ℕ) → Agree (set_next n b link) n c
unfolding set_next
dequeue-Agree n b link c = (ground arith, ground arith)

-- A dequeue of the nodes against one of the list.
pub data Dequeues : List ℕ → Option (Packet × List Packet) → Option (Packet × Fifo) → Type 0 where
  empty : Dequeues [] none none
  takes :
      (t : ℕ) (rest : List ℕ) (item : Packet) (xs : List Packet) (f : Fifo)
      → Represents f rest xs
      → Dequeues (t ∷ rest) (some (item, xs)) (some (item, f))

unlink_tail-Represents :
    (f : Fifo) (t : ℕ) (rest : List ℕ) (item : Packet) (xs : List Packet) (h : ℕ)
    → f.head ≡ some h
    → Chain f.nodes t rest (item ∷ xs) h
    → ((f.nodes t).item ≡ item) × Represents (unlink_tail f t (f.nodes t).parent) rest xs
unfolding unlink_tail set_parent
unlink_tail-Represents f t [] item xs h head c =
    (c.2, subst (λ g. Represents (unlink_tail f t g) [] xs) (sym c.1) (refl, refl, c.3))
unlink_tail-Represents f t (b ∷ rest) item xs h head c =
    let n = set_next f.nodes b none in
    (
      c.1,
      subst (λ g. Represents (unlink_tail f t g) (b ∷ rest) xs) (sym c.0)
          (
            h,
            refl,
            head,
            Chain-agree (set_parent n t none) f.nodes b rest xs h
                (AgreeOn-trans (set_parent n t none) n f.nodes (b ∷ rest)
                  (AgreeOn-Outside n t (record (n t) { parent = none }) (b ∷ rest) c.2)
                  (AgreeOn-all n f.nodes (b ∷ rest) (dequeue-Agree f.nodes b none)))
                c.3,
          ),
    )

-- A dequeue of the nodes does what one of the list does: it fails on an empty queue only, and otherwise
-- returns the same packet and leaves nodes that represent the rest of the list. The test for an empty
-- queue agrees with it.
pub bus_fifo_dequeue-Dequeues :
    (f : Fifo) (l : List ℕ) (xs : List Packet)
    → Represents f l xs
    → Dequeues l (fifo_dequeue xs) (bus_fifo_dequeue f) × (bus_fifo_is_empty f ≡ fifo_is_empty xs)
unfolding bus_fifo_dequeue bus_fifo_is_empty fifo_is_empty fifo_dequeue take_tail
bus_fifo_dequeue-Dequeues f [] [] r =
    (subst (λ g. Dequeues [] none (take_tail f g)) (sym r.1) Dequeues.empty, ap is_null r.0)
bus_fifo_dequeue-Dequeues f [] (x ∷ xs) r = absurd (cc r.2)
bus_fifo_dequeue-Dequeues f (t ∷ []) [] (h, tail, head, c) = absurd c
bus_fifo_dequeue-Dequeues f (t ∷ b ∷ rest) [] (h, tail, head, c) = absurd c
bus_fifo_dequeue-Dequeues f (t ∷ rest) (x ∷ xs) (h, tail, head, c) =
    let left = unlink_tail-Represents f t rest x xs h head c in
    (
      subst (λ g. Dequeues (t ∷ rest) (some (x, xs)) (take_tail f g)) (sym tail)
          (subst
            (λ y. Dequeues (t ∷ rest) (some (x, xs)) (some (y, unlink_tail f t (f.nodes t).parent)))
            (sym left.0) (Dequeues.takes t rest x xs (unlink_tail f t (f.nodes t).parent) left.1)),
      ap is_null head,
    )
