-- ===== src/Timer/Heap/Insert.antt =====
-- `add` and `adjust`: exactly one id is set, and the heap stays a heap.
use native.Mathlib.Decide.{ℕ_discrete}
use video_server.Base.{
  Bool, ℕ, suc, ◌+◌, ◌-◌, ◌^◌, ◌≤◌, ◌<◌, ◌≡◌, ◌∙◌, ◌⊎◌, inl, inr, [], ◌∷◌, ◌++◌, none, some, arith,
  set, ◌==◌, if◌then◌else◌, false, Option-cases, length-append, length-set, get_or-append,
  get_or-append_last, get_or-set,
}
use video_server.Base.Run.{abort, Ensures, ensures, Ensures-weaken, Ensures-bind}
use video_server.Timer.Heap.{TimerNode, HeapTimer, count, update, ms, node_at, add, adjust}
use video_server.Timer.Heap.Order.{up, key, find, IsIndexed, IsValid, Shuffled-refl, UpInv, Dented}
use video_server.Timer.Heap.Up.{Sifted, siftup_restores, siftup-abort}
use video_server.Timer.Heap.Down.{Sunk, sank, stayed, siftdown_settles, settle_restores}

-- What `add` puts into the timer.
abbrev pub added : ℕ → ℕ → ℕ → ℕ → TimerNode
added now id timeout cb = record { id = id; expires = now + ms timeout; cb = cb }

module _ (stray : TimerNode) where
  -- `u` is valid and is `t` with `node` as what it holds for `node.id`.
  pub record With (node : TimerNode) (t u : HeapTimer) : Type 0 where
    pub valid : IsValid stray u
    pub others : (id : ℕ) → find stray u id ≡ (if node.id == id then some node else find stray t id)

  abbrev pub pushed : TimerNode → HeapTimer → HeapTimer
  pushed node t = record { heap = t.heap ++ node ∷ []; ref = update t.ref node.id (some (count t)) }

  module _ (node : TimerNode) (t : HeapTimer) (fresh : t.ref node.id ≡ none)
      (v : IsValid stray t) where
    count-pushed : count (pushed node t) ≡ suc (count t)
    count-pushed = omega (arith, length-append t.heap (node ∷ []))

    pushed-IsIndexed : IsIndexed stray (pushed node t)
    pushed-IsIndexed = record {
      placed = λ c h. ground (
        arith,
        count-pushed,
        get_or-append t.heap (node ∷ []) c stray,
        get_or-append_last t.heap node stray,
        v.indexed.placed c,
      );
      found = λ id c e. ground (
        arith,
        count-pushed,
        get_or-append t.heap (node ∷ []) c stray,
        get_or-append_last t.heap node stray,
        v.indexed.found id c,
      );
    }

    find-pushed :
        (id : ℕ)
        → find stray (pushed node t) id ≡ (if node.id == id then some node else find stray t id)
    find-pushed id = elim (Option-cases (t.ref id)) [
      | inl e ↦ ground (arith, e, get_or-append_last t.heap node stray)
      | inr (k, e) ↦ ground (
        arith,
        e,
        v.indexed.found id k e,
        get_or-append_last t.heap node stray,
        get_or-append t.heap (node ∷ []) k stray,
      )
    ]

    pushed-UpInv : UpInv stray (suc (count t)) (pushed node t) (count t)
    pushed-UpInv = record {
      inside = omega arith;
      edges = λ c p h d. ground (
        arith,
        get_or-append t.heap (node ∷ []) c stray,
        get_or-append t.heap (node ∷ []) (up c) stray,
        v.ordered c,
      );
      bridged = λ c p h e q. absurd (omega arith);
    }

  -- `t` with the node at `i` given anew, under its own id.
  abbrev pub replaced : ℕ → TimerNode → HeapTimer → HeapTimer
  replaced i node t = record t { heap = set t.heap i node }

  module _ (i : ℕ) (node : TimerNode) (t : HeapTimer) (held : t.ref node.id ≡ some i)
      (v : IsValid stray t) where
    inside : i < count t
    inside = (v.indexed.found node.id i held).0

    node_at-replaced :
        (c : ℕ)
        → node_at stray (replaced i node t).heap c
          ≡ (if i == c then node else node_at stray t.heap c)
    node_at-replaced c = get_or-set t.heap i c node stray inside

    count-replaced : count (replaced i node t) ≡ count t
    count-replaced = length-set t.heap i node

    replaced-IsIndexed : IsIndexed stray (replaced i node t)
    replaced-IsIndexed = record {
      placed = λ c h. ground (arith, count-replaced, node_at-replaced c, v.indexed.placed c, held);
      found = λ id c e. ground (
        arith,
        count-replaced,
        node_at-replaced c,
        v.indexed.found id c,
        v.indexed.found node.id i,
      );
    }

    find-replaced :
        (id : ℕ)
        → find stray (replaced i node t) id ≡ (if node.id == id then some node else find stray t id)
    find-replaced id = elim (Option-cases (t.ref id)) [
      | inl e ↦ ground (arith, e, held)
      | inr (k, e) ↦ ground (
        arith,
        e,
        held,
        v.indexed.found id k e,
        v.indexed.found node.id i held,
        node_at-replaced k,
      )
    ]

    replaced-Dented : Dented stray (count t) (replaced i node t) i
    replaced-Dented = record {
      inside = inside;
      edges = λ c p h d e. ground (arith, node_at-replaced c, node_at-replaced (up c), v.ordered c);
      bridged = λ c p h e q.
          ground
            (arith, node_at-replaced c, node_at-replaced (up i), v.ordered c, v.ordered i, inside);
    }

  Sifted-With :
      (node : TimerNode) (t w u : HeapTimer)
      → count w < 2 ^ 63 - 1
      → ((id : ℕ) → find stray w id ≡ (if node.id == id then some node else find stray t id))
      → Sifted stray (count w) w u
      → With node t u
  Sifted-With node t w u small e (s, h) = record {
    valid = record { indexed = s.indexed; ordered = rw s.size h; small = omega (arith, s.size) };
    others = λ id. s.same id ∙ e id;
  }

  -- `add` on a valid timer with room for one node more sets exactly the id that it is given, new
  -- or not, and keeps the timer valid, provided that the stray node at the root's parent expires
  -- before the node that is added.
  pub add_inserts :
      (now id timeout cb : ℕ) (t : HeapTimer)
      → IsValid stray t
      → suc (count t) < 2 ^ 63 - 1
      → stray.expires < now + ms timeout
      → Ensures (With (added now id timeout cb) t) (add stray now id timeout cb t)
  unfolding add
  add_inserts now id timeout cb t v small calm =
      let node = added now id timeout cb in
      elim (Option-cases (t.ref id)) [
        | inl e ↦
            let size = count-pushed node t e v in
            rw (e, add)
              (Ensures-weaken
                (siftup_restores stray (count (pushed node t)) (pushed node t) (count t)
                  (omega arith) (omega arith) (pushed-IsIndexed node t e v)
                  (rw size (pushed-UpInv node t e v))
                  (ground (arith, get_or-append_last t.heap node stray)))
                (λ u s.
                  Sifted-With node t (pushed node t) u (omega arith) (find-pushed node t e v) s))
        | inr (i, e) ↦
            let size = count-replaced i node t e v in
            let same : (node_at stray t.heap i).id ≡ id = (v.indexed.found id i e).1 in
            rw (e, add, same)
              (Ensures-weaken
                (settle_restores stray (count t) (replaced i node t) i (omega arith)
                  (omega (arith, v.small)) (replaced-IsIndexed i node t e v)
                  (replaced-Dented i node t e v) (ground (arith, node_at-replaced i node t e v i)))
                (λ u s.
                  Sifted-With node t (replaced i node t) u (omega (arith, v.small))
                    (find-replaced i node t e v) (rw size s)))
      ]

  -- A new id whose timeout is due no later than all others, as the first one of all is, ends in
  -- the assertion of `SwapNode_` unless the stray node expires before it.
  pub add-abort :
      (now id timeout cb : ℕ) (t : HeapTimer)
      → IsValid stray t
      → suc (count t) < 2 ^ 63 - 1
      → t.ref id ≡ none
      → (count t ≡ 0) ⊎ (now + ms timeout ≤ key stray t 0)
      → now + ms timeout ≤ stray.expires
      → add stray now id timeout cb t ≡ abort
  unfolding add
  add-abort now id timeout cb t v small fresh first low =
      let node = added now id timeout cb in
      let size = count-pushed node t fresh v in
      rw (fresh, add)
        (siftup-abort stray (count (pushed node t)) (pushed node t) (count t) (omega arith)
          (omega arith) (rw size (pushed-UpInv node t fresh v))
          (ground (
            arith,
            get_or-append_last t.heap node stray,
            get_or-append t.heap (node ∷ []) 0 stray,
            first,
          ))
          (ground (arith, get_or-append_last t.heap node stray)))

  -- A node that only expires later needs no way up.
  settled :
      (i : ℕ) (node : TimerNode) (t : HeapTimer) (held : t.ref node.id ≡ some i)
      (v : IsValid stray t) (r : Bool × HeapTimer)
      → key stray t i ≤ node.expires
      → Sunk stray (count t) (replaced i node t) i r
      → Sifted stray (count t) (replaced i node t) r.1
  settled i node t held v r later (sank s) = s
  settled i node t held v r later (stayed u) = (
    Shuffled-refl stray (count t) (replaced i node t) (replaced-IsIndexed i node t held v),
    λ c p h. elim (ℕ_discrete c i) [
      | yes e ↦ ground (
        arith,
        node_at-replaced i node t held v c,
        node_at-replaced i node t held v (up c),
        v.ordered c p h,
      )
      | no e ↦ u.edges c p h e
    ],
  )

  -- `adjust` moves the timeout of an id that the timer holds to a later time, sets no other id and
  -- keeps the timer valid.
  pub adjust_extends :
      (now id timeout : ℕ) (t : HeapTimer) (node : TimerNode)
      → IsValid stray t
      → find stray t id ≡ some node
      → node.expires ≤ now + ms timeout
      → Ensures
          (With (record node { expires = now + ms timeout }) t)
          (adjust stray now id timeout t)
  unfolding adjust
  adjust_extends now id timeout t node v held later = elim (Option-cases (t.ref id)) [
    | inl e ↦ absurd (ground (arith, e, held))
    | inr (i, e) ↦
        let new = record node { expires = now + ms timeout } in
        let at = v.indexed.found id i e in
        let same : node_at stray t.heap i ≡ node = ground (arith, e, held) in
        let own : node.id ≡ id = ground (arith, same, at) in
        let place : t.ref node.id ≡ some i = rw own e in
        let some_nodes : (count t == 0) ≡ false = ground (arith, at) in
        let size = count-replaced i new t place v in
        rw (some_nodes, e, same, adjust)
          (Ensures-bind
            (siftdown_settles stray (count t) (replaced i new t) i (omega arith)
              (replaced-IsIndexed i new t place v) (replaced-Dented i new t place v))
            λ r p. ensures (
              Sifted-With new t (replaced i new t) r.1 (omega (arith, v.small))
                (find-replaced i new t place v)
                (rw size (settled i new t place v r (ground (arith, same)) p))))
  ]
