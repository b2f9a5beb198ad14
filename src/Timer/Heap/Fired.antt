-- ===== src/Timer/Heap/Fired.antt =====
-- Which callbacks `tick` runs: those of known nodes, and among them those of all nodes that go.
use video_server.Base.{
  ℕ, zero, suc, ◌+◌, ◌≤◌, ◌<◌, ◌≡◌, ◌⊎◌, inl, inr, true, List, [], some, arith, All, contains, ◌==◌,
  Bool-cases,
}
use video_server.Base.Int.{is_positive}
use video_server.Base.Run.{Ensures, ensures, Ensures-bind, Ensures-both}
use video_server.Timer.Heap.{
  TimerNode, HeapTimer, count, node_at, tick_loop, tick, get_next_tick, ms_between,
}
use video_server.Timer.Heap.Order.{find, IsValid}
use video_server.Timer.Heap.Ticks.{
  IsAbove, Ticked, tick_fires, pop_removes, find-node_at, Without-IsAbove,
}

module _ (stray : TimerNode) (P : ℕ → Type 0) where
  -- `P` holds of the callbacks that ran, and what the timer held is still there or has run.
  pub record Fired (t : HeapTimer) (r : List ℕ × ℕ × HeapTimer) : Type 0 where
    pub valid : IsValid stray r.2
    pub known : All P r.0
    pub rest :
        (id : ℕ) (node : TimerNode)
        → find stray t id ≡ some node
        → (find stray r.2 id ≡ some node) ⊎ (contains node.cb r.0 ≡ true)
    pub old :
        (id : ℕ) (node : TimerNode) → find stray r.2 id ≡ some node → find stray t id ≡ some node

  Fired-none : (t : HeapTimer) (k : ℕ) → IsValid stray t → Fired t ([], k, t)
  Fired-none t k v = record {
    valid = v;
    known = tt;
    rest = λ id node e. inl e;
    old = λ id node e. e;
  }

  tick_loop-Fired :
      (clock : ℕ → ℕ) (fuel k : ℕ) (t : HeapTimer)
      → count t < fuel
      → IsValid stray t
      → IsAbove stray t
      → ((id : ℕ) (node : TimerNode) → find stray t id ≡ some node → P node.cb)
      → Ensures (Fired t) (tick_loop stray clock fuel k t)
  unfolding tick_loop
  tick_loop-Fired clock zero k t f v above all = absurd (omega arith)
  tick_loop-Fired clock (suc fuel) k t f v above all = elim (Bool-cases (count t == 0)) [
    | inl empty ↦ rw empty (ensures (Fired-none t k v))
    | inr some_nodes ↦
        let root = node_at stray t.heap 0 in
        let at = find-node_at stray t 0 v.indexed (ground arith) in
        elim (Bool-cases (is_positive (ms_between (clock k) root.expires))) [
          | inl later ↦ rw (some_nodes, later) (ensures (Fired-none t (k + 1) v))
          | inr due ↦
              rw (some_nodes, due)
                (Ensures-bind (pop_removes stray t v above (ground arith)) λ u w.
                  Ensures-bind
                    (tick_loop-Fired clock fuel (k + 1) u (omega (arith, w.fewer)) w.valid
                      (Without-IsAbove stray _ t u w above)
                      (λ id node e. all id node (ground (arith, e, w.others id))))
                    λ r s. ensures (record {
                      valid = s.valid;
                      known = (all root.id root at, s.known);
                      rest = λ id node e. ground (arith, at, e, w.others id, s.rest id node);
                      old = λ id node e. ground (arith, w.others id, s.old id node e);
                    }))
        ]
  ]

  -- The callbacks that `tick` runs are those of nodes in the timer, and every node whose callback has
  -- not run is still there.
  pub tick-Fired :
      (clock : ℕ → ℕ) (k : ℕ) (t : HeapTimer)
      → IsValid stray t
      → IsAbove stray t
      → ((id : ℕ) (node : TimerNode) → find stray t id ≡ some node → P node.cb)
      → Ensures (Fired t) (tick stray clock k t)
  unfolding tick
  tick-Fired clock k t v above all =
      tick_loop-Fired clock (count t + 1) k t (omega arith) v above all

  -- The same of `GetNextTick`, with what `tick` does to the timeouts.
  pub get_next_tick-Fired :
      (clock : ℕ → ℕ) (k : ℕ) (t : HeapTimer)
      → ((i : ℕ) → clock i ≤ clock (i + 1))
      → IsValid stray t
      → IsAbove stray t
      → ((id : ℕ) (node : TimerNode) → find stray t id ≡ some node → P node.cb)
      → Ensures
          (λ r. (k' : ℕ) × Fired t (r.0, k', r.2) × Ticked stray clock t (r.0, k', r.2))
          (get_next_tick stray clock k t)
  unfolding get_next_tick
  get_next_tick-Fired clock k t mono v above all =
      Ensures-bind
        (Ensures-both (tick-Fired clock k t v above all) (tick_fires stray clock k t mono v above))
        λ r s. ensures (r.1, s.0, s.1)
