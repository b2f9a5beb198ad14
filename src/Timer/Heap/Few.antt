-- ===== src/Timer/Heap/Few.antt =====
-- The ids of a timer are distinct, so a bound on them bounds the vector.
use video_server.Base.{
  ℕ, zero, suc, ◌≤◌, ◌<◌, ◌≡◌, inl, inr, Option, some, arith, ◌==◌, if◌then◌else◌, Option-cases,
}
use video_server.Timer.Heap.{TimerNode, HeapTimer, count, node_at}
use video_server.Timer.Heap.Order.{IsIndexed}

-- Of `n` values below `k` with an inverse there are no more than `k`.
pigeonhole :
    (k n : ℕ) (f : ℕ → ℕ) (back : ℕ → Option ℕ)
    → ((i : ℕ) → i < n → (f i < k) × (back (f i) ≡ some i))
    → n ≤ k
pigeonhole zero zero f back h = omega arith
pigeonhole zero (suc n) f back h = absurd (omega (arith, (h 0 (omega arith)).0))
pigeonhole (suc k) zero f back h = omega arith
pigeonhole (suc k) (suc n) f back h = elim (Option-cases (back k)) [
  | inl e ↦
      let fewer = pigeonhole k (suc n) f back (λ i p. ground (arith, h i p, e)) in
      omega (arith, fewer)
  | inr (j, e) ↦
      let g = λ (i : ℕ). if i == j then f n else f i in
      let back' = λ (v : ℕ). if v == f n then some j else back v in
      let fewer = pigeonhole k n g back' (λ i p.
        (ground (arith, h i, h n (omega arith), e), ground (arith, h i, h n (omega arith), e))) in
      omega (arith, fewer)
]

-- A timer whose ids are all below `k` has at most `k` nodes.
pub count-le_of_ids :
    (stray : TimerNode) (k : ℕ) (t : HeapTimer)
    → IsIndexed stray t
    → ((i : ℕ) → i < count t → (node_at stray t.heap i).id < k)
    → count t ≤ k
count-le_of_ids stray k t x below =
    pigeonhole k (count t) (λ i. (node_at stray t.heap i).id) t.ref
      (λ i h. (below i h, x.placed i h))
