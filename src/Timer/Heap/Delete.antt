-- ===== src/Timer/Heap/Delete.antt =====
-- `del_`, `pop` and `doWork`: exactly one id goes, and the heap stays a heap.
use video_server.Base.{
  ℕ, suc, ◌-◌, ◌<◌, ◌≡◌, refl, ap, ◌∙◌, false, if◌then◌else◌, ◌==◌, inl, inr, none, some, arith,
  ltb→lt, ltb, take, lt→ltb, Bool-cases, Option-cases, get_or-take, length-take,
}
use video_server.Base.Run.{ok, ◌>>=◌, Ensures, ensures, Ensures-weaken, Ensures-bind}
use video_server.Timer.Heap.{
  TimerNode, HeapTimer, count, update, node_at, swap_node, settle, del, do_work,
}
use video_server.Timer.Heap.Order.{
  up, key, find, IsHeap, IsIndexed, IsValid, Shuffled, Shuffled-mono, Shuffled-trans, Shuffled-refl,
  Dented,
}
use video_server.Timer.Heap.Swap.{swapped, swap_node-ok, node_at-swapped, swapped-Shuffled}
use video_server.Timer.Heap.Down.{settle_restores}

module _ (stray : TimerNode) where
  -- `u` is the valid timer `t` less the id `gone`.
  pub record Without (gone : ℕ) (t u : HeapTimer) : Type 0 where
    pub valid : IsValid stray u
    pub fewer : suc (count u) ≡ count t
    pub others : (id : ℕ) → find stray u id ≡ (if gone == id then none else find stray t id)

  -- The vector and the map without the last node.
  abbrev shortened : ℕ → HeapTimer → HeapTimer
  shortened n t = record {
    heap = take n t.heap;
    ref = update t.ref (node_at stray t.heap n).id none;
  }

  module _ (n : ℕ) (t : HeapTimer) (last : count t ≡ suc n) (x : IsIndexed stray t) where
    count-shortened : count (shortened n t) ≡ n
    count-shortened = omega (arith, length-take n t.heap)

    shortened-IsIndexed : IsIndexed stray (shortened n t)
    shortened-IsIndexed = record {
      placed = λ c h.
          ground (arith, count-shortened, get_or-take n t.heap c stray, x.placed c, x.placed n);
      found = λ id c e.
          ground (arith, count-shortened, get_or-take n t.heap c stray, x.found id c, x.placed n);
    }

    find-shortened :
        (id : ℕ)
        → find stray (shortened n t) id
          ≡ (if (node_at stray t.heap n).id == id then none else find stray t id)
    find-shortened id = elim (Option-cases (t.ref id)) [
      | inl e ↦ ground (arith, e)
      | inr (k, e) ↦ ground (arith, e, x.found id k e, x.placed n, get_or-take n t.heap k stray)
    ]

    shortened-IsHeap : IsHeap stray n t → IsHeap stray n (shortened n t)
    shortened-IsHeap h c p q =
        ground (arith, h c, get_or-take n t.heap c stray, get_or-take n t.heap (up c) stray)

  swapped-Dented :
      (n : ℕ) (t : HeapTimer) (i : ℕ)
      → count t ≡ suc n
      → IsHeap stray (count t) t
      → i < n
      → Dented stray n (swapped stray i n t) i
  swapped-Dented n t i last h p =
      let at = node_at-swapped stray i n t (omega arith) (omega arith) in
      record {
        inside = p;
        edges = λ c q r d e. ground (arith, at c, at (up c), h c);
        bridged = λ c q r d e. ground (arith, at c, at (up i), h c, h i);
      }

  module _ (n : ℕ) (t : HeapTimer) (last : count t ≡ suc n) (v : IsValid stray t) where
    -- What is left of `del_` once the first `n` nodes of `w` are those of `t`, less the deleted.
    finish :
        (gone : ℕ) (w : HeapTimer)
        → Shuffled stray (suc n) t w × IsHeap stray n w
        → (node_at stray w.heap n).id ≡ gone
        → Without gone t (shortened n w)
    finish gone w (s, h) e =
        let size : count w ≡ suc n = s.size ∙ last in
        let len = count-shortened n w size s.indexed in
        record {
          valid = record {
            indexed = shortened-IsIndexed n w size s.indexed;
            ordered = rw len (shortened-IsHeap n w size s.indexed h);
            small = omega (arith, v.small);
          };
          fewer = omega arith;
          others = λ id. ground (arith, find-shortened n w size s.indexed id, s.same id, e);
        }

    middle :
        (i : ℕ)
        → i < n
        → stray.expires < key stray t n
        → Ensures
            (λ w.
              Shuffled stray (suc n) t w
              × IsHeap stray n w
              × ((node_at stray w.heap n).id ≡ (node_at stray t.heap i).id))
            (swap_node stray i n t >>= settle stray i n)
    middle i p calm =
        let hi : i < count t = omega arith in
        let hn : n < count t = omega arith in
        let at = node_at-swapped stray i n t hi hn in
        let moved =
          swapped-Shuffled stray i n t hi hn (suc n) (omega arith) (omega arith) v.indexed in
        rw (swap_node-ok stray i n t hi hn) (
          Ensures-weaken
            (settle_restores stray n (swapped stray i n t) i (omega (arith, moved.size))
              (omega (arith, moved.size, v.small)) moved.indexed
              (swapped-Dented n t i last v.ordered p) (ground (arith, at i)))
            λ w s. (
              Shuffled-trans stray (suc n) t (swapped stray i n t) w moved
                  (Shuffled-mono stray n (suc n) _ w (omega arith) s.0),
              s.1,
              ground (arith, s.0.fixed n (omega arith), at n),
            ))

  -- `del_` on a valid timer and an index within it returns, removes exactly the node at the index
  -- and keeps the timer valid, provided that the stray node expires before the last node.
  pub del_removes :
      (i : ℕ) (t : HeapTimer)
      → IsValid stray t
      → i < count t
      → stray.expires < key stray t (count t - 1)
      → Ensures (Without (node_at stray t.heap i).id t) (del stray i t)
  unfolding del
  del_removes i t v h calm =
      let n = count t - 1 in
      let last : count t ≡ suc n = omega arith in
      rw (lt→ltb i (count t) h) (elim (Bool-cases (ltb i (count t - 1))) [
        | inl before ↦ rw before (
            Ensures-bind (middle n t last v i (ltb→lt _ _ before) calm)
              λ w s. ensures (finish n t last v (node_at stray t.heap i).id w (s.0, s.1) s.2))
        | inr final ↦
            let e : i ≡ count t - 1 = ground arith in
            rw (final, e)
              (ensures (
                finish n t last v (node_at stray t.heap (count t - 1)).id t
                  (Shuffled-refl stray (suc n) t v.indexed, λ c p q. v.ordered c p (omega arith))
                  refl))
      ])

  -- `doWork` on an id that a valid timer holds runs that id's callback and removes that id alone,
  -- provided that the stray node expires before the last node.
  pub do_work_removes :
      (id : ℕ) (t : HeapTimer) (node : TimerNode)
      → IsValid stray t
      → stray.expires < key stray t (count t - 1)
      → find stray t id ≡ some node
      → Ensures (λ r. (r.0 ≡ some node.cb) × Without id t r.1) (do_work stray id t)
  unfolding do_work
  do_work_removes id t node v calm held = elim (Option-cases (t.ref id)) [
    | inl e ↦ absurd (ground (arith, e, held))
    | inr (i, e) ↦
        let at = v.indexed.found id i e in
        let same : node_at stray t.heap i ≡ node = ground (arith, e, held) in
        rw (let some_nodes : (count t == 0) ≡ false = ground (arith, at) in some_nodes, e, do_work)
          (Ensures-bind (del_removes i t v at.0 calm)
            λ u w. ensures (ap (λ (n : TimerNode). some n.cb) same, rw at.1 at w))
  ]

  pub do_work-missing :
      (id : ℕ) (t : HeapTimer) → find stray t id ≡ none → do_work stray id t ≡ ok (none, t)
  unfolding do_work
  do_work-missing id t e = ground arith
