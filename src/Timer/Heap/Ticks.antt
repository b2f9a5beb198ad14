-- ===== src/Timer/Heap/Ticks.antt =====
-- `tick` and `GetNextTick`: which timeouts fire, and how long the server then waits.
use video_server.Base.{
  ℕ, zero, suc, All, All-mono, contains, [], ◌∷◌, ap, ◌+◌, ◌-◌, ◌^◌, ◌≤◌, ◌<◌, ◌≡◌, refl, ◌⊎◌, inl,
  inr, List, none, some, true, false, ◌/◌, arith, length, leb, ◌==◌, Bool-cases, Option-cases,
}
use video_server.Base.Int.{neg_of, is_positive, to_size_t, to_int}
use video_server.Base.Run.{ok, Ensures, ensures, Ensures-weaken, Ensures-bind}
use video_server.Timer.Heap.{
  TimerNode, HeapTimer, count, node_at, pop, tick_loop, tick, get_next_tick, ms_between, clamp,
}
use video_server.Timer.Heap.Order.{key, find, IsIndexed, IsValid, root_least}
use video_server.Timer.Heap.Delete.{Without, del_removes}

abbrev pub callbacks : List TimerNode → List ℕ
callbacks [] = []
callbacks (node ∷ nodes) = node.cb ∷ callbacks nodes

abbrev pub ids : List TimerNode → List ℕ
ids [] = []
ids (node ∷ nodes) = node.id ∷ ids nodes

module _ (stray : TimerNode) where
  -- Every timeout is due after the stray node's time.
  abbrev pub IsAbove : HeapTimer → Type 0
  IsAbove t =
      (id : ℕ) (node : TimerNode) → find stray t id ≡ some node → stray.expires < node.expires

  -- What `tick` does to `t`: only timeouts that are due go, and those left are not due at its last
  -- reading of the clock. (`r.1` counts the readings.) The callbacks that run, `r.0`, are in order
  -- those of `nodes`, which are as many as the timeouts that go, and all of these.
  pub record Ticked (clock : ℕ → ℕ) (t : HeapTimer) (r : List ℕ × ℕ × HeapTimer) : Type 0 where
    pub valid : IsValid stray r.2
    pub nodes : List TimerNode
    pub ran : callbacks nodes ≡ r.0
    pub went : All (λ n. (find stray t n.id ≡ some n) × (find stray r.2 n.id ≡ none)) nodes
    pub each :
        (id : ℕ) (node : TimerNode)
        → find stray t id ≡ some node
        → find stray r.2 id ≡ none
        → contains id (ids nodes) ≡ true
    pub counted : length r.0 + count r.2 ≡ count t
    pub part : (id : ℕ) → (find stray r.2 id ≡ none) ⊎ (find stray r.2 id ≡ find stray t id)
    pub kept :
        (id : ℕ) (node : TimerNode)
        → find stray r.2 id ≡ some node
        → (0 < r.1) × (clock (r.1 - 1) + 1000000 ≤ node.expires)
    pub gone :
        (id : ℕ) (node : TimerNode)
        → find stray t id ≡ some node
        → find stray r.2 id ≡ none
        → node.expires < clock r.1 + 1000000

  ms_positive : (now end : ℕ) → (is_positive (ms_between now end) ≡ true) → now + 1000000 ≤ end
  ms_positive now end h = elim (Bool-cases (leb now end)) [
    | inl e ↦ ground (arith, e)
    | inr e ↦ absurd (not_positive ((now - end) / 1000000) (rw e at h))
  ]
    where
      not_positive : (n : ℕ) → ¬ (is_positive (neg_of n) ≡ true)
      not_positive zero = λ p. ground arith
      not_positive (suc n) = λ p. ground arith

  ms_not_positive : (now end : ℕ) → (is_positive (ms_between now end) ≡ false) → end < now + 1000000
  ms_not_positive now end h = ground arith

  int_of_neg : (n : ℕ) → n < 2 ^ 31 → to_int (clamp (to_size_t (neg_of n))) ≡ neg_of n
  int_of_neg zero h = refl
  int_of_neg (suc n) h = ground arith

  int_of_ms :
      (now end : ℕ)
      → (end - now) / 1000000 < 2 ^ 31
      → (now - end) / 1000000 < 2 ^ 31
      → to_int (clamp (to_size_t (ms_between now end))) ≡ ms_between now end
  int_of_ms now end h p = elim (Bool-cases (leb now end)) [
    | inl e ↦ rw e (ground arith)
    | inr e ↦ rw e (int_of_neg ((now - end) / 1000000) p)
  ]

  -- A node of a valid timer is found under its id.
  pub find-node_at :
      (t : HeapTimer) (i : ℕ)
      → IsIndexed stray t
      → i < count t
      → find stray t (node_at stray t.heap i).id ≡ some (node_at stray t.heap i)
  find-node_at t i x h = ground (arith, x.placed i h)

  -- What is found is a node of the vector.
  pub node_at-find :
      (t : HeapTimer) (id : ℕ) (node : TimerNode)
      → IsIndexed stray t
      → find stray t id ≡ some node
      → (i : ℕ) × (i < count t) × (node_at stray t.heap i ≡ node) × (node.id ≡ id)
  node_at-find t id node x e = elim (Option-cases (t.ref id)) [
    | inl r ↦ absurd (ground (arith, r, e))
    | inr (i, r) ↦
        (i, (x.found id i r).0, ground (arith, r, e), ground (arith, r, e, x.found id i r))
  ]

  pub pop_removes :
      (t : HeapTimer)
      → IsValid stray t
      → IsAbove t
      → 0 < count t
      → Ensures (Without stray (node_at stray t.heap 0).id t) (pop stray t)
  unfolding pop
  pop_removes t v above h =
      let last = find-node_at t (count t - 1) v.indexed (omega arith) in
      del_removes stray 0 t v h (above _ _ last)

  pub Without-IsAbove :
      (gone : ℕ) (t u : HeapTimer) → Without stray gone t u → IsAbove t → IsAbove u
  Without-IsAbove gone t u w above id node e = ground (arith, w.others id, e, above id node)

  tick_loop_fires :
      (clock : ℕ → ℕ) (fuel k : ℕ) (t : HeapTimer)
      → ((i : ℕ) → clock i ≤ clock (i + 1))
      → count t < fuel
      → IsValid stray t
      → IsAbove t
      → Ensures (λ r. Ticked clock t r × (clock k ≤ clock r.1)) (tick_loop stray clock fuel k t)
  unfolding tick_loop
  tick_loop_fires clock zero k t mono f v above = absurd (omega arith)
  tick_loop_fires clock (suc fuel) k t mono f v above = elim (Bool-cases (count t == 0)) [
    | inl empty ↦ rw empty (
        ensures (
          record {
            valid = v;
            nodes = [];
            ran = refl;
            went = tt;
            each = λ id node e n. absurd (ground (arith, e, n));
            counted = ground arith;
            part = λ id. inr refl;
            kept = λ id node e. absurd (ground (arith, empty, node_at-find t id node v.indexed e));
            gone = λ id node e n. absurd (ground (arith, e, n));
          },
          ground arith,
        ))
    | inr some_nodes ↦
        elim (Bool-cases (is_positive (ms_between (clock k) (node_at stray t.heap 0).expires))) [
          | inl later ↦
              rw (some_nodes, later)
                (ensures (
                  record {
                    valid = v;
                    nodes = [];
                    ran = refl;
                    went = tt;
                    each = λ id node e n. absurd (ground (arith, e, n));
                    counted = ground arith;
                    part = λ id. inr refl;
                    kept = λ id node e.
                        let (i, inside, at, own) = node_at-find t id node v.indexed e in
                        ground (
                          arith,
                          at,
                          ms_positive (clock k) (key stray t 0) later,
                          root_least stray (count t) t i v.ordered inside,
                        );
                    gone = λ id node e n. absurd (ground (arith, e, n));
                  },
                  mono k,
                ))
          | inr due ↦
              rw (some_nodes, due)
                (Ensures-bind (pop_removes t v above (ground arith)) λ u w.
                  Ensures-bind
                    (tick_loop_fires clock fuel (k + 1) u mono (omega (arith, w.fewer)) w.valid
                      (Without-IsAbove _ t u w above))
                    λ r s. ensures (
                      record {
                        valid = s.0.valid;
                        nodes = node_at stray t.heap 0 ∷ s.0.nodes;
                        ran = ap (λ l. (node_at stray t.heap 0).cb ∷ l) s.0.ran;
                        went = (
                          (
                            find-node_at t 0 v.indexed (ground arith),
                            ground (
                              arith,
                              s.0.part (node_at stray t.heap 0).id,
                              w.others (node_at stray t.heap 0).id,
                            ),
                          ),
                          All-mono s.0.nodes (λ n h. (ground (arith, h.0, w.others n.id), h.1))
                              s.0.went,
                        );
                        each = λ id node e n. ground (arith, e, w.others id, s.0.each id node, n);
                        counted = omega (arith, s.0.counted, w.fewer);
                        part = λ id. ground (arith, s.0.part id, w.others id);
                        kept = s.0.kept;
                        gone = λ id node e n. ground (
                          arith,
                          e,
                          n,
                          w.others id,
                          s.0.gone id node,
                          s.1,
                          mono k,
                          find-node_at t 0 v.indexed (ground arith),
                          ms_not_positive (clock k) (key stray t 0) due,
                        );
                      },
                      omega (arith, mono k, s.1),
                    ))
        ]
  ]

  -- On a valid timer, with a clock that does not go back and all timeouts after the stray node's,
  -- `tick` ends, fires only timeouts that are due at one of its readings of the clock and all that
  -- are due at the last, and leaves the rest as they were. The callbacks that it runs are those of
  -- the nodes that go, each once.
  pub tick_fires :
      (clock : ℕ → ℕ) (k : ℕ) (t : HeapTimer)
      → ((i : ℕ) → clock i ≤ clock (i + 1))
      → IsValid stray t
      → IsAbove t
      → Ensures (Ticked clock t) (tick stray clock k t)
  unfolding tick
  tick_fires clock k t mono v above =
      Ensures-weaken (tick_loop_fires clock (count t + 1) k t mono (omega arith) v above) λ r s. s.0

  module _ (clock : ℕ → ℕ) (k : ℕ) (t : HeapTimer) (cbs : List ℕ) (k' : ℕ) (u : HeapTimer)
      (ticked : tick stray clock k t ≡ ok (cbs, k', u)) where
    -- With a timeout left after `tick`, less than 2^31 milliseconds away, the result is the signed
    -- number of milliseconds from the reading after those of `tick` to the front's time, also
    -- where that is negative: the test `res < 0` on a `size_t` never holds. The callbacks are those
    -- that `tick` ran.
    pub get_next_tick-eq-ms_between :
        0 < count u
        → (key stray u 0 - clock k') / 1000000 < 2 ^ 31
        → (clock k' - key stray u 0) / 1000000 < 2 ^ 31
        → get_next_tick stray clock k t ≡ ok (cbs, ms_between (clock k') (key stray u 0), u)
    unfolding get_next_tick
    get_next_tick-eq-ms_between h early late = rw (
      ticked,
      get_next_tick,
      let some_nodes : (count u == 0) ≡ false = ground arith in some_nodes,
      int_of_ms (clock k') (key stray u 0) early late,
    )
