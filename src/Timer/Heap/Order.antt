-- ===== src/Timer/Heap/Order.antt =====
-- The order of the heap, the agreement of the map with the vector, and the timer seen as a finite
-- map from ids to nodes.
use video_server.Base.{
  ℕ, zero, suc, ◌-◌, ◌/◌, ◌^◌, ◌≤◌, ◌<◌, ◌≡◌, refl, ◌∙◌, ◌≢◌, Option, none, some, arith,
}
use video_server.Timer.Heap.{TimerNode, HeapTimer, count, parent, node_at}

-- The parent of a place other than the root.
abbrev pub up : ℕ → ℕ
up c = (c - 1) / 2

pub parent-up : (c : ℕ) → 0 < c → c < 2 ^ 64 → parent c ≡ up c
parent-up c p h = omega arith

-- The root's parent is far past the vector.
pub parent-root : parent 0 ≡ 2 ^ 63 - 1
parent-root = omega arith

module _ (stray : TimerNode) where
  abbrev pub key : HeapTimer → ℕ → ℕ
  key t i = (node_at stray t.heap i).expires

  -- No node of the first `n` expires before its parent.
  abbrev pub IsHeap : ℕ → HeapTimer → Type 0
  IsHeap n t = (c : ℕ) → 0 < c → c < n → key t (up c) ≤ key t c

  -- Each node is where the map says, and the map has no other entries.
  pub record IsIndexed (t : HeapTimer) : Type 0 where
    pub placed : (i : ℕ) → i < count t → t.ref (node_at stray t.heap i).id ≡ some i
    pub found : (id i : ℕ) → t.ref id ≡ some i → (i < count t) × ((node_at stray t.heap i).id ≡ id)

  -- What the timer holds for an id.
  abbrev pub find : HeapTimer → ℕ → Option TimerNode
  find t id = elim (t.ref id) [ none ↦ none | some i ↦ some (node_at stray t.heap i) ]

  pub record IsValid (t : HeapTimer) : Type 0 where
    pub indexed : IsIndexed t
    pub ordered : IsHeap (count t) t
    pub small : count t < 2 ^ 63 - 1

  -- `u` is `t` with the first `n` nodes in another order.
  pub record Shuffled (n : ℕ) (t u : HeapTimer) : Type 0 where
    pub indexed : IsIndexed u
    pub size : count u ≡ count t
    pub same : (id : ℕ) → find u id ≡ find t id
    pub fixed : (c : ℕ) → n ≤ c → node_at stray u.heap c ≡ node_at stray t.heap c

  pub Shuffled-refl : (n : ℕ) (t : HeapTimer) → IsIndexed t → Shuffled n t t
  Shuffled-refl n t x = record { indexed = x; size = refl; same = λ id. refl; fixed = λ c h. refl }

  pub Shuffled-trans :
      (n : ℕ) (t u v : HeapTimer) → Shuffled n t u → Shuffled n u v → Shuffled n t v
  Shuffled-trans n t u v p q = record {
    indexed = q.indexed;
    size = q.size ∙ p.size;
    same = λ id. q.same id ∙ p.same id;
    fixed = λ c h. q.fixed c h ∙ p.fixed c h;
  }

  pub Shuffled-mono : (m n : ℕ) (t u : HeapTimer) → m ≤ n → Shuffled m t u → Shuffled n t u
  Shuffled-mono m n t u h p = record {
    indexed = p.indexed;
    size = p.size;
    same = p.same;
    fixed = λ c q. p.fixed c (omega arith);
  }

  -- Only the edge above `i` may be out of order.
  pub record UpInv (n : ℕ) (t : HeapTimer) (i : ℕ) : Type 0 where
    pub inside : i < n
    pub edges : (c : ℕ) → 0 < c → c < n → c ≢ i → key t (up c) ≤ key t c
    pub bridged : (c : ℕ) → 0 < c → c < n → up c ≡ i → 0 < i → key t (up i) ≤ key t c

  -- Only the edges below `i` may be out of order.
  pub record DownInv (n : ℕ) (t : HeapTimer) (i : ℕ) : Type 0 where
    pub edges : (c : ℕ) → 0 < c → c < n → up c ≢ i → key t (up c) ≤ key t c
    pub bridged : (c : ℕ) → 0 < c → c < n → up c ≡ i → 0 < i → key t (up i) ≤ key t c

  -- Only the edges at `i` may be out of order.
  pub record Dented (n : ℕ) (t : HeapTimer) (i : ℕ) : Type 0 where
    pub inside : i < n
    pub edges : (c : ℕ) → 0 < c → c < n → c ≢ i → up c ≢ i → key t (up c) ≤ key t c
    pub bridged : (c : ℕ) → 0 < c → c < n → up c ≡ i → 0 < i → key t (up i) ≤ key t c

  root_least_below :
      (k n : ℕ) (t : HeapTimer) (i : ℕ) → IsHeap n t → i < k → i < n → key t 0 ≤ key t i
  root_least_below zero n t i h f p = absurd (omega arith)
  root_least_below (suc k) n t i h f p = ground (arith, h i, root_least_below k n t (up i) h)

  -- The root of a heap expires first.
  pub root_least : (n : ℕ) (t : HeapTimer) (i : ℕ) → IsHeap n t → i < n → key t 0 ≤ key t i
  root_least n t i h p = root_least_below (suc i) n t i h (omega arith) p
