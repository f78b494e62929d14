-- ===== src/Bus/Queue/Chain.antt =====
-- Nodes of the queue of Interface/src/Bus.c that are linked from the tail to the head.
use multicore_proccessor.Common.{
  ℕ, ◌≡◌, ◌≢◌, refl, sym, ap, ◌∙◌, none, some, List, [], ◌∷◌, ◌++◌, update, update_ne,
}
use multicore_proccessor.Bus.Packet.{Packet}
use multicore_proccessor.Bus.Queue.{QueueItem}

-- No address of the list is `a`.
abbrev pub Outside : ℕ → List ℕ → Type 0
Outside a [] = Unit
Outside a (b ∷ rest) = (b ≢ a) × Outside a rest

-- From the node `t` on, the parents are the nodes of `rest`, the last is `h`; the packets are theirs.
abbrev pub Chain : (ℕ → QueueItem) → ℕ → List ℕ → List Packet → ℕ → Type 0
Chain nodes t [] [] h = ⊥
Chain nodes t [] (x ∷ xs) h = (t ≡ h) × ((nodes t).parent ≡ none) × ((nodes t).item ≡ x) × (xs ≡ [])
Chain nodes t (b ∷ rest) [] h = ⊥
Chain nodes t (b ∷ rest) (x ∷ xs) h =
    ((nodes t).parent ≡ some b)
    × ((nodes t).item ≡ x)
    × Outside t (b ∷ rest)
    × Chain nodes b rest xs h

-- A chain stays where its nodes keep their packets and parents.
abbrev pub Agree : (ℕ → QueueItem) → (ℕ → QueueItem) → ℕ → Type 0
Agree m n a = ((m a).parent ≡ (n a).parent) × ((m a).item ≡ (n a).item)

abbrev pub AgreeOn : (ℕ → QueueItem) → (ℕ → QueueItem) → List ℕ → Type 0
AgreeOn m n [] = Unit
AgreeOn m n (a ∷ l) = Agree m n a × AgreeOn m n l

pub Chain-agree :
    (m n : ℕ → QueueItem) (t : ℕ) (rest : List ℕ) (xs : List Packet) (h : ℕ)
    → AgreeOn m n (t ∷ rest)
    → Chain n t rest xs h
    → Chain m t rest xs h
Chain-agree m n t [] [] h e c = c
Chain-agree m n t [] (x ∷ xs) h (e, _) c = (c.0, e.0 ∙ c.1, e.1 ∙ c.2, c.3)
Chain-agree m n t (b ∷ rest) [] h e c = c
Chain-agree m n t (b ∷ rest) (x ∷ xs) h (e, es) c =
    (e.0 ∙ c.0, e.1 ∙ c.1, c.2, Chain-agree m n b rest xs h es c.3)

-- Writes to a node outside a list.
pub AgreeOn-Outside :
    (n : ℕ → QueueItem) (a : ℕ) (q : QueueItem) (l : List ℕ)
    → Outside a l
    → AgreeOn (update n a q) n l
AgreeOn-Outside n a q [] o = tt
AgreeOn-Outside n a q (b ∷ l) (ne, o) =
    let same : update n a q b ≡ n b = update_ne n q (λ e. ne (sym e)) in
    (
      (ap (λ (x : QueueItem). x.parent) same, ap (λ (x : QueueItem). x.item) same),
      AgreeOn-Outside n a q l o,
    )

pub AgreeOn-trans :
    (k m n : ℕ → QueueItem) (l : List ℕ) → AgreeOn k m l → AgreeOn m n l → AgreeOn k n l
AgreeOn-trans k m n [] e e' = tt
AgreeOn-trans k m n (a ∷ l) (e, es) (e', es') =
    ((e.0 ∙ e'.0, e.1 ∙ e'.1), AgreeOn-trans k m n l es es')

pub AgreeOn-all : (m n : ℕ → QueueItem) (l : List ℕ) → ((a : ℕ) → Agree m n a) → AgreeOn m n l
AgreeOn-all m n [] e = tt
AgreeOn-all m n (a ∷ l) e = (e a, AgreeOn-all m n l e)

pub Chain-last-ne :
    (n : ℕ → QueueItem) (t : ℕ) (rest : List ℕ) (xs : List Packet) {h a : ℕ}
    → Chain n t rest xs h
    → Outside a (t ∷ rest)
    → h ≢ a
Chain-last-ne n t [] [] c o = absurd c
Chain-last-ne n t [] (x ∷ xs) c o = λ e. o.0 (c.0 ∙ e)
Chain-last-ne n t (b ∷ rest) [] c o = absurd c
Chain-last-ne n t (b ∷ rest) (x ∷ xs) c o = Chain-last-ne n b rest xs c.3 o.1

-- A node `a` that is linked in front of the head `h`.
pub record Linked (m n : ℕ → QueueItem) (h a : ℕ) (item : Packet) : Type 0 where
  pub new_parent : (m a).parent ≡ none
  pub new_item : (m a).item ≡ item
  pub old_parent : (m h).parent ≡ some a
  pub old_item : (m h).item ≡ (n h).item
  pub others : (b : ℕ) → b ≢ h → b ≢ a → m b ≡ n b

Outside-snoc : (t a : ℕ) (l : List ℕ) → Outside t l → t ≢ a → Outside t (l ++ a ∷ [])
Outside-snoc t a [] o ne = ((λ e. ne (sym e)), tt)
Outside-snoc t a (b ∷ l) o ne = (o.0, Outside-snoc t a l o.1 ne)

pub Chain-snoc :
    (m n : ℕ → QueueItem) (t : ℕ) (rest : List ℕ) (xs : List Packet) {h a : ℕ} {item : Packet}
    → Linked m n h a item
    → Outside a (t ∷ rest)
    → Chain n t rest xs h
    → Chain m t (rest ++ a ∷ []) (xs ++ item ∷ []) a
Chain-snoc m n t [] [] k o c = absurd c
Chain-snoc m n t [] (x ∷ []) k o c = (
  ap (λ (b : ℕ). (m b).parent) c.0 ∙ k.old_parent,
  ap (λ (b : ℕ). (m b).item) c.0 ∙ k.old_item ∙ ap (λ (b : ℕ). (n b).item) (sym c.0) ∙ c.2,
  ((λ e. o.0 (sym e)), tt),
  (refl, k.new_parent, k.new_item, refl),
)
Chain-snoc m n t [] (x ∷ y ∷ xs) k o c = absurd (cc (c.3))
Chain-snoc m n t (b ∷ rest) [] k o c = absurd c
Chain-snoc m n t (b ∷ rest) (x ∷ xs) {h} {a} k o c =
    let same : m t ≡ n t = k.others t (λ e. Chain-last-ne n b rest xs c.3 c.2 (sym e)) o.0 in
    (
      ap (λ (q : QueueItem). q.parent) same ∙ c.0,
      ap (λ (q : QueueItem). q.item) same ∙ c.1,
      Outside-snoc t a (b ∷ rest) c.2 o.0,
      Chain-snoc m n b rest xs k o.1 c.3,
    )
