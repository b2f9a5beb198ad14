-- ===== src/Timer/Heap/Down.antt =====
-- `siftdown_`, and the pair of sifts that follows a change in the middle of the heap.
use video_server.Base.{
  ℕ, zero, suc, ◌+◌, ◌-◌, ◌*◌, ◌^◌, ◌≤◌, ◌<◌, ◌≡◌, Bool, true, false, if◌then◌else◌, ◌⊎◌, inl, inr,
  arith, ltb, ltb→lt, lt→ltb, le→ltb, le→leb, Bool-cases,
}
use video_server.Base.Run.{ok, ◌>>=◌, Ensures, ensures, Ensures-weaken, Ensures-bind}
use video_server.Timer.Heap.{
  TimerNode, HeapTimer, count, less, node_at, swap_node, smaller_child, siftdown_loop, siftdown,
  siftup, settle,
}
use video_server.Timer.Heap.Order.{
  up, key, IsIndexed, Shuffled-refl, Shuffled-trans, UpInv, DownInv, Dented,
}
use video_server.Timer.Heap.Swap.{swapped, swap_node-ok, node_at-swapped, swapped-Shuffled}
use video_server.Timer.Heap.Up.{Sifted, siftup_restores}

module _ (stray : TimerNode) where
  -- `m` is the child of `i` that expires first.
  record IsFirstChild (n : ℕ) (t : HeapTimer) (i m : ℕ) : Type 0 where
    inside : m < n
    below : i < m
    child : up m ≡ i
    least : (c : ℕ) → 0 < c → c < n → up c ≡ i → key stray t m ≤ key stray t c

  two_children : (i c : ℕ) → 0 < c → up c ≡ i → (c ≡ i * 2 + 1) ⊎ (c ≡ i * 2 + 1 + 1)
  two_children i c p e = omega arith

  smaller_child-IsFirstChild :
      (n : ℕ) (t : HeapTimer) (i : ℕ)
      → i * 2 + 1 < n
      → IsFirstChild n t i (smaller_child stray t.heap n (i * 2 + 1))
  smaller_child-IsFirstChild n t i h = record {
    inside = ground arith;
    below = ground arith;
    child = ground arith;
    least = λ c p q e. elim (two_children i c p e) [
      | inl left ↦ rw left (ground arith)
      | inr right ↦ rw right (ground (arith, right))
    ];
  }

  swapped-DownInv :
      (n : ℕ) (t : HeapTimer) (i m : ℕ)
      → Dented stray n t i
      → n ≤ count t
      → IsFirstChild n t i m
      → key stray t m ≤ key stray t i
      → DownInv stray n (swapped stray i m t) m
  swapped-DownInv n t i m v size s below =
      let at = node_at-swapped stray i m t (omega arith) (omega arith) in
      record {
        edges = λ c p h e. ground (arith, at c, at (up c), v.edges c, v.bridged m, s.least c);
        bridged = λ c p h e q. ground (arith, at c, at (up m), v.edges c);
      }

  -- What a round of the loop hands on: all is in order, and the place is no earlier.
  abbrev Rested : ℕ → HeapTimer → ℕ → ℕ × HeapTimer → Type 0
  Rested n t i r = Sifted stray n t r.1 × (i ≤ r.0)

  DownInv-Dented :
      (n : ℕ) (t : HeapTimer) (i : ℕ) → i < n → DownInv stray n t i → Dented stray n t i
  DownInv-Dented n t i h v = record {
    inside = h;
    edges = λ c p q d e. v.edges c p q e;
    bridged = v.bridged;
  }

  module _ (n : ℕ) (t : HeapTimer) (i : ℕ) where
    abbrev first_child : ℕ
    first_child = smaller_child stray t.heap n (i * 2 + 1)

  module _ (n : ℕ) (t : HeapTimer) (i : ℕ) (size : n ≤ count t) (x : IsIndexed stray t) where
    -- The step of the loop that swaps, given what the rest of the loop does.
    sink_rests :
        (fuel : ℕ)
        → Dented stray n t i
        → i * 2 + 1 < n
        → key stray t (first_child n t i) ≤ key stray t i
        → Ensures
            (Rested n (swapped stray i (first_child n t i) t) (first_child n t i))
            (siftdown_loop stray fuel n (first_child n t i) (swapped stray i (first_child n t i) t))
        → Ensures
            (λ r. Sifted stray n t r.1 × (i < r.0))
            (swap_node stray i (first_child n t i) t
              >>= siftdown_loop stray fuel n (first_child n t i))
    sink_rests fuel v h below rest =
        let s = smaller_child-IsFirstChild n t i h in
        let hi : i < count t = omega (arith, v.inside) in
        let hj : (first_child n t i) < count t = omega (arith, s.inside) in
        let moved = swapped-Shuffled stray i (first_child n t i) t hi hj n v.inside s.inside x in
        rw (swap_node-ok stray i (first_child n t i) t hi hj) (
          Ensures-weaken rest λ r p.
            ((Shuffled-trans stray n t _ r.1 moved p.0.0, p.0.1), omega (arith, s.below, p.1)))

  siftdown_loop_restores :
      (fuel n : ℕ) (t : HeapTimer) (i : ℕ)
      → n - i < fuel
      → i < n
      → n ≤ count t
      → IsIndexed stray t
      → DownInv stray n t i
      → Ensures (Rested n t i) (siftdown_loop stray fuel n i t)
  unfolding siftdown_loop
  siftdown_loop_restores zero n t i f hi size x v = absurd (omega arith)
  siftdown_loop_restores (suc fuel) n t i f hi size x v = elim (Bool-cases (ltb (i * 2 + 1) n)) [
    | inr leaf ↦ rw leaf (
        ensures
          ((Shuffled-refl stray n t x, λ c p h. ground (arith, leaf, v.edges c)), omega arith))
    | inl inner ↦
        let s = smaller_child-IsFirstChild n t i (ltb→lt _ _ inner) in
        elim (Bool-cases
          (less (node_at stray t.heap i) (node_at stray t.heap (first_child n t i)))) [
            | inl settled ↦
                rw (inner, settled)
                  (ensures (
                    (
                      Shuffled-refl stray n t x,
                      λ c p h. ground (arith, settled, v.edges c, s.least c),
                    ),
                    omega arith,
                  ))
            | inr above ↦
                let below : key stray t (first_child n t i) ≤ key stray t i = ground arith in
                let d = DownInv-Dented n t i hi v in
                let moved =
                  swapped-Shuffled stray i (first_child n t i) t (omega arith)
                    (omega (arith, s.inside)) n hi s.inside x in
                rw (inner, above)
                  (Ensures-weaken
                    (sink_rests n t i size x fuel d (ltb→lt _ _ inner) below (
                      siftdown_loop_restores fuel n (swapped stray i (first_child n t i) t)
                        (first_child n t i) (omega (arith, s.below, s.inside)) s.inside
                        (omega (arith, moved.size)) moved.indexed
                        (swapped-DownInv n t i (first_child n t i) d size s below)))
                    λ r p. (p.0, omega (arith, p.1)))
          ]
  ]

  -- What `siftdown_` makes of a heap with one node out of place: if the node moved, all is in
  -- order; if not, only the edge above it may be out of order, and nothing changed.
  pub data Sunk (n : ℕ) (t : HeapTimer) (i : ℕ) : Bool × HeapTimer → Type 0 where
    sank : {u : HeapTimer} → Sifted stray n t u → Sunk n t i (true, u)
    stayed : UpInv stray n t i → Sunk n t i (false, t)

  -- The first round: where the node stays, and where it goes down.
  siftdown_loop_settles :
      (fuel n : ℕ) (t : HeapTimer) (i : ℕ)
      → n - i < fuel
      → n ≤ count t
      → IsIndexed stray t
      → Dented stray n t i
      → Ensures (λ r. Sunk n t i (ltb i r.0, r.1)) (siftdown_loop stray fuel n i t)
  unfolding siftdown_loop
  siftdown_loop_settles zero n t i f size x v = absurd (omega arith)
  siftdown_loop_settles (suc fuel) n t i f size x v = elim (Bool-cases (ltb (i * 2 + 1) n)) [
    | inr leaf ↦ rw leaf (
        ensures (
          rw (le→ltb i i (omega arith)) (
            stayed (record {
              inside = v.inside;
              edges = λ c p h d. ground (arith, leaf, v.edges c);
              bridged = v.bridged;
            }))))
    | inl inner ↦
        let s = smaller_child-IsFirstChild n t i (ltb→lt _ _ inner) in
        elim (Bool-cases
          (less (node_at stray t.heap i) (node_at stray t.heap (first_child n t i)))) [
            | inl settled ↦
                rw (inner, settled)
                  (ensures (
                    rw (le→ltb i i (omega arith)) (
                      stayed (record {
                        inside = v.inside;
                        edges = λ c p h d. ground (arith, settled, v.edges c, s.least c);
                        bridged = v.bridged;
                      }))))
            | inr above ↦
                let below : key stray t (first_child n t i) ≤ key stray t i = ground arith in
                let moved =
                  swapped-Shuffled stray i (first_child n t i) t (omega (arith, v.inside))
                    (omega (arith, s.inside)) n v.inside s.inside x in
                rw (inner, above)
                  (Ensures-weaken
                    (sink_rests n t i size x fuel v (ltb→lt _ _ inner) below (
                      siftdown_loop_restores fuel n (swapped stray i (first_child n t i) t)
                        (first_child n t i) (omega (arith, s.below, s.inside)) s.inside
                        (omega (arith, moved.size)) moved.indexed
                        (swapped-DownInv n t i (first_child n t i) v size s below)))
                    λ r p. rw (lt→ltb i r.0 p.1) (sank p.0))
          ]
  ]

  pub siftdown_settles :
      (n : ℕ) (t : HeapTimer) (i : ℕ)
      → n ≤ count t
      → IsIndexed stray t
      → Dented stray n t i
      → Ensures (Sunk n t i) (siftdown stray i n t)
  unfolding siftdown
  siftdown_settles n t i size x v =
      rw (lt→ltb i (count t) (omega (arith, v.inside)), le→leb n (count t) size)
        (Ensures-bind (siftdown_loop_settles (n + 1) n t i (omega arith) size x v) λ r p. ensures p)

  -- With one node out of place, the two sifts restore the order of the first `n` nodes, provided
  -- that the stray node expires before that node and the timer has fewer than 2^63 - 1 nodes.
  pub settle_restores :
      (n : ℕ) (t : HeapTimer) (i : ℕ)
      → n ≤ count t
      → count t < 2 ^ 63 - 1
      → IsIndexed stray t
      → Dented stray n t i
      → stray.expires < key stray t i
      → Ensures (Sifted stray n t) (settle stray i n t)
  unfolding settle
  settle_restores n t i size small x v calm =
      Ensures-bind (siftdown_settles n t i size x v) λ r p. after r p
    where
      after :
          (r : Bool × HeapTimer)
          → Sunk n t i r
          → Ensures (Sifted stray n t) (if r.0 then ok r.1 else siftup stray i r.1)
      after r (sank s) = ensures s
      after r (stayed u) = siftup_restores stray n t i size small x u calm
