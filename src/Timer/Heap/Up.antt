-- ===== src/Timer/Heap/Up.antt =====
-- `siftup_`: it restores the order if the stray node at the root's parent expires before the
-- moved one, and runs into `SwapNode_`'s assertion if the moved one comes to the root otherwise.
use video_server.Base.{
  ℕ, zero, suc, ◌+◌, ◌-◌, ◌^◌, ◌≤◌, ◌<◌, ◌≡◌, inl, inr, arith, ltb, lt→ltb, le→ltb, Bool-cases,
  get_or-past,
}
use native.Mathlib.Decide.{ℕ_discrete}
use video_server.Base.Run.{abort, Ensures, ensures, Ensures-weaken}
use video_server.Timer.Heap.{TimerNode, HeapTimer, count, parent, node_at, siftup_loop, siftup}
use video_server.Timer.Heap.Order.{
  up, parent-up, key, IsHeap, IsIndexed, Shuffled, Shuffled-refl, Shuffled-trans, UpInv,
}
use video_server.Timer.Heap.Swap.{
  swapped, swap_node-ok, swap_node-abort, count-swapped, node_at-swapped, swapped-Shuffled,
}

module _ (stray : TimerNode) where
  -- The first `n` nodes are in order, and nothing else changed.
  abbrev pub Sifted : ℕ → HeapTimer → HeapTimer → Type 0
  Sifted n t u = Shuffled stray n t u × IsHeap stray n u

  swapped-UpInv :
      (n : ℕ) (t : HeapTimer) (i : ℕ)
      → UpInv stray n t i
      → n ≤ count t
      → 0 < i
      → key stray t i ≤ key stray t (up i)
      → UpInv stray n (swapped stray i (up i) t) (up i)
  swapped-UpInv n t i v size pos below =
      let at = node_at-swapped stray i (up i) t (omega arith) (omega arith) in
      record {
        inside = omega arith;
        edges = λ c p h e. ground (arith, at c, at (up c), v.edges c, v.bridged c);
        bridged = λ c p h e q. ground (arith, at c, at (up (up i)), v.edges c, v.edges (up i));
      }

  siftup_loop_restores :
      (fuel n : ℕ) (t : HeapTimer) (i : ℕ)
      → i < fuel
      → n ≤ count t
      → count t < 2 ^ 63 - 1
      → IsIndexed stray t
      → UpInv stray n t i
      → stray.expires < key stray t i
      → Ensures (Sifted n t) (siftup_loop stray fuel i t)
  unfolding siftup_loop
  siftup_loop_restores zero n t i f size small x v calm = absurd (omega arith)
  siftup_loop_restores (suc fuel) n t i f size small x v calm = elim (ℕ_discrete i 0) [
    | yes root ↦
        let past : node_at stray t.heap (parent i) ≡ stray =
          get_or-past t.heap (parent i) stray (omega (arith, root)) in
        rw (past, lt→ltb stray.expires (key stray t i) calm)
          (ensures (Shuffled-refl stray n t x, λ c p h. v.edges c p h (omega (arith, root))))
    | no below ↦
        rw (parent-up i (omega arith) (omega arith))
          (elim (Bool-cases (ltb (key stray t (up i)) (key stray t i))) [
            | inl settled ↦
                rw settled
                  (ensures (Shuffled-refl stray n t x, λ c p h. ground (arith, settled, v.edges c)))
            | inr above ↦
                let hi : i < count t = omega (arith, v.inside) in
                let hj : up i < count t = omega (arith, v.inside) in
                let moved = swapped-Shuffled stray i (up i) t hi hj n v.inside (omega arith) x in
                let at = node_at-swapped stray i (up i) t hi hj in
                rw (above, swap_node-ok stray i (up i) t hi hj)
                  (Ensures-weaken
                    (siftup_loop_restores fuel n (swapped stray i (up i) t) (up i) (omega arith)
                      (omega (arith, moved.size)) (omega (arith, moved.size)) moved.indexed
                      (swapped-UpInv n t i v size (omega arith) (ground arith))
                      (ground (arith, at (up i))))
                    λ u s. (Shuffled-trans stray n t _ u moved s.0, s.1))
          ])
  ]

  -- Sifting up restores the order, if the stray node expires before the node that moves.
  pub siftup_restores :
      (n : ℕ) (t : HeapTimer) (i : ℕ)
      → n ≤ count t
      → count t < 2 ^ 63 - 1
      → IsIndexed stray t
      → UpInv stray n t i
      → stray.expires < key stray t i
      → Ensures (Sifted n t) (siftup stray i t)
  unfolding siftup
  siftup_restores n t i size small x v calm =
      rw (lt→ltb i (count t) (omega (arith, v.inside)))
        (siftup_loop_restores (i + 1) n t i (omega arith) size small x v calm)

  -- The nodes before `i` do not expire before the root.
  root_before :
      (k n : ℕ) (t : HeapTimer) (i c : ℕ)
      → UpInv stray n t i
      → c < k
      → c < i
      → key stray t 0 ≤ key stray t c
  root_before zero n t i c v h p = absurd (omega arith)
  root_before (suc k) n t i c v h p =
      ground (arith, v.edges c, v.inside, root_before k n t i (up c) v)

  siftup_loop-abort :
      (fuel n : ℕ) (t : HeapTimer) (i : ℕ)
      → i < fuel
      → n ≤ count t
      → count t < 2 ^ 63 - 1
      → UpInv stray n t i
      → key stray t i ≤ key stray t 0
      → key stray t i ≤ stray.expires
      → siftup_loop stray fuel i t ≡ abort
  unfolding siftup_loop
  siftup_loop-abort zero n t i f size small v least low = absurd (omega arith)
  siftup_loop-abort (suc fuel) n t i f size small v least low = elim (ℕ_discrete i 0) [
    | yes root ↦
        let past : node_at stray t.heap (parent i) ≡ stray =
          get_or-past t.heap (parent i) stray (omega (arith, root)) in
        rw (
          past,
          le→ltb stray.expires (key stray t i) low,
          swap_node-abort stray i (parent i) t (omega (arith, root)),
        )
    | no below ↦
        let hi : i < count t = omega (arith, v.inside) in
        let hj : up i < count t = omega (arith, v.inside) in
        let above : key stray t i ≤ key stray t (up i) =
          omega (arith, root_before i n t i (up i) v (omega arith) (omega arith)) in
        let size' = count-swapped stray i (up i) t hi hj in
        let at = node_at-swapped stray i (up i) t hi hj in
        rw
          (
            parent-up i (omega arith) (omega arith),
            le→ltb (key stray t (up i)) (key stray t i) above,
            swap_node-ok stray i (up i) t hi hj,
          )
          (siftup_loop-abort fuel n (swapped stray i (up i) t) (up i) (omega arith) (omega arith)
            (omega arith) (swapped-UpInv n t i v size (omega arith) above)
            (ground (arith, at (up i), at 0)) (ground (arith, at (up i))))
  ]

  -- A node that does not expire after the root comes to the root. There the stray node decides:
  -- unless it expires before, the swap with it fails `SwapNode_`'s assertion.
  pub siftup-abort :
      (n : ℕ) (t : HeapTimer) (i : ℕ)
      → n ≤ count t
      → count t < 2 ^ 63 - 1
      → UpInv stray n t i
      → key stray t i ≤ key stray t 0
      → key stray t i ≤ stray.expires
      → siftup stray i t ≡ abort
  unfolding siftup
  siftup-abort n t i size small v least low =
      rw (lt→ltb i (count t) (omega (arith, v.inside)))
        (siftup_loop-abort (i + 1) n t i (omega arith) size small v least low)
