-- ===== src/Timer/Heap/Swap.antt =====
-- `SwapNode_`: what two nodes that change places leave as it was.
use video_server.Base.{
  ℕ, ◌≤◌, ◌<◌, ◌≡◌, ◌∙◌, some, arith, set, ◌==◌, if◌then◌else◌, length-set, get_or-set, lt→ltb,
  Option-cases, inl, inr,
}
use video_server.Base.Run.{ok, abort}
use video_server.Timer.Heap.{TimerNode, HeapTimer, count, update, node_at, swap_node}
use video_server.Timer.Heap.Order.{IsIndexed, find, Shuffled}

module _ (stray : TimerNode) (i j : ℕ) (t : HeapTimer) where
  -- The timer that `SwapNode_` leaves.
  abbrev pub swapped : HeapTimer
  swapped =
      let heap = set (set t.heap i (node_at stray t.heap j)) j (node_at stray t.heap i) in
      record {
        heap = heap;
        ref =
            update (update t.ref (node_at stray heap i).id (some i)) (node_at stray heap j).id
              (some j);
      }

  pub swap_node-abort : count t ≤ j → swap_node stray i j t ≡ abort
  unfolding swap_node
  swap_node-abort h = ground arith

  module _ (hi : i < count t) (hj : j < count t) where
    pub swap_node-ok : swap_node stray i j t ≡ ok swapped
    unfolding swap_node
    swap_node-ok = rw (lt→ltb i (count t) hi, lt→ltb j (count t) hj)

    pub count-swapped : count swapped ≡ count t
    count-swapped =
        length-set (set t.heap i (node_at stray t.heap j)) j (node_at stray t.heap i)
        ∙ length-set t.heap i (node_at stray t.heap j)

    pub node_at-swapped :
        (c : ℕ)
        → node_at stray swapped.heap c ≡ (
            if j == c
            then node_at stray t.heap i
            else if i == c
            then node_at stray t.heap j
            else node_at stray t.heap c)
    node_at-swapped c =
        get_or-set (set t.heap i (node_at stray t.heap j)) j c (node_at stray t.heap i) stray
          (omega (arith, length-set t.heap i (node_at stray t.heap j)))
        ∙ ground (arith, get_or-set t.heap i c (node_at stray t.heap j) stray)

    swapped-IsIndexed : IsIndexed stray t → IsIndexed stray swapped
    swapped-IsIndexed x = record {
      placed = λ c h. ground (
        arith,
        count-swapped,
        node_at-swapped i,
        node_at-swapped j,
        node_at-swapped c,
        x.placed c,
        x.placed i,
        x.placed j,
      );
      found = λ id c e. ground (
        arith,
        count-swapped,
        node_at-swapped i,
        node_at-swapped j,
        node_at-swapped c,
        x.found id c,
        x.placed i,
        x.placed j,
      );
    }

    find-swapped : IsIndexed stray t → (id : ℕ) → find stray swapped id ≡ find stray t id
    find-swapped x id = elim (Option-cases (t.ref id)) [
      | inl e ↦
          ground (arith, e, node_at-swapped i, node_at-swapped j, x.placed i hi, x.placed j hj)
      | inr (k, e) ↦ ground (
        arith,
        e,
        x.found id k e,
        node_at-swapped i,
        node_at-swapped j,
        node_at-swapped k,
        x.placed i hi,
        x.placed j hj,
      )
    ]

    pub swapped-Shuffled : (n : ℕ) → i < n → j < n → IsIndexed stray t → Shuffled stray n t swapped
    swapped-Shuffled n pi pj x = record {
      indexed = swapped-IsIndexed x;
      size = count-swapped;
      same = find-swapped x;
      fixed = λ c h. ground (arith, node_at-swapped c);
    }
