-- ===== src/Timer/Heap.antt =====
-- code/timer/heaptimer.h and heaptimer.cpp: a binary min-heap of timeouts in a vector, with a map
-- from an id to its place.
-- Times are numbers of nanoseconds; each call takes the time that `Clock::now()` returns in it.
-- `siftup_` looks for the parent of index 0 at `(0 - 1) / 2` in `size_t`, far past the vector.
-- C++ says nothing about such a read: `stray` is the node that it finds, any node at all.
-- The map is a function; an `at` on a missing key, where `operator[]` would add 0, is `none`.
pub mod Order
pub mod Swap
pub mod Up
pub mod Down
pub mod Delete
pub mod Insert
pub mod Ticks
pub mod Fired
pub mod Few
mod Tests
use video_server.Base.{
  ℕ, zero, suc, ◌+◌, ◌-◌, ◌*◌, ◌/◌, ◌%◌, ◌^◌, Bool, true, false, ◌&&◌, List, [], ◌∷◌, ◌++◌, Option,
  none, some, length, get_or, set, take, ltb, leb, ◌==◌, if◌then◌else◌,
}
use video_server.Base.Int.{ℤ, pos, negsuc, neg_of, is_positive, to_size_t, to_int}
use video_server.Base.Run.{Run, ok, abort, out_of_fuel, ◌>>=◌, ◌>>◌, check}

-- `cb` names the callback.
pub record TimerNode : Type 0 where
  pub id : ℕ
  pub expires : ℕ
  pub cb : ℕ

pub record HeapTimer : Type 0 where
  pub heap : List TimerNode
  pub ref : ℕ → Option ℕ

abbrev pub count : HeapTimer → ℕ
count t = length t.heap

abbrev pub update : (ℕ → Option ℕ) → ℕ → Option ℕ → ℕ → Option ℕ
update f k v j = if k == j then v else f j

-- `operator<`
abbrev pub less : TimerNode → TimerNode → Bool
less a b = ltb a.expires b.expires

-- `(i - 1) / 2` in `size_t`
abbrev pub parent : ℕ → ℕ
parent i = ((i + (2 ^ 64 - 1)) % 2 ^ 64) / 2

-- milliseconds to the clock's unit
abbrev pub ms : ℕ → ℕ
ms n = n * 1000000

-- `duration_cast<MS>(to - from).count()`: rounded towards zero.
abbrev pub ms_between : ℕ → ℕ → ℤ
ms_between from to =
    if leb from to then pos ((to - from) / 1000000) else neg_of ((from - to) / 1000000)

-- `if(res < 0) { res = 0; }` at type `size_t`, where no value is below 0
abbrev pub clamp : ℕ → ℕ
clamp res = if ltb res 0 then 0 else res

module _ (stray : TimerNode) where
  -- `heap_[i]`
  abbrev pub node_at : List TimerNode → ℕ → TimerNode
  node_at a i = get_or a i stray

  unfoldable pub swap_node : ℕ → ℕ → HeapTimer → Run HeapTimer
  swap_node i j t = do
    check (ltb i (count t))
    check (ltb j (count t))
    let swapped = set (set t.heap i (node_at t.heap j)) j (node_at t.heap i)
    let first = update t.ref (node_at swapped i).id (some i)
    ok (record { heap = swapped; ref = update first (node_at swapped j).id (some j) })

  unfoldable pub siftup_loop : ℕ → ℕ → HeapTimer → Run HeapTimer
  siftup_loop zero i t = out_of_fuel
  siftup_loop (suc fuel) i t =
      let j = parent i in
      let rise = swap_node i j t >>= siftup_loop fuel j in
      if less (node_at t.heap j) (node_at t.heap i) then ok t else rise

  unfoldable pub siftup : ℕ → HeapTimer → Run HeapTimer
  siftup i t = check (ltb i (count t)) >> siftup_loop (i + 1) i t

  -- The `j++` of the loop: the child that goes up.
  abbrev pub smaller_child : List TimerNode → ℕ → ℕ → ℕ
  smaller_child a n j = if ltb (j + 1) n && less (node_at a (j + 1)) (node_at a j) then j + 1 else j

  -- Returns where the node came to rest.
  unfoldable pub siftdown_loop : ℕ → ℕ → ℕ → HeapTimer → Run (ℕ × HeapTimer)
  siftdown_loop zero n i t = out_of_fuel
  siftdown_loop (suc fuel) n i t =
      let j = smaller_child t.heap n (i * 2 + 1) in
      let sink = swap_node i j t >>= siftdown_loop fuel n j in
      let step = if less (node_at t.heap i) (node_at t.heap j) then ok (i, t) else sink in
      if ltb (i * 2 + 1) n then step else ok (i, t)

  unfoldable pub siftdown : ℕ → ℕ → HeapTimer → Run (Bool × HeapTimer)
  siftdown index n t = do
    check (ltb index (count t))
    check (leb n (count t))
    (i, t') ← siftdown_loop (n + 1) n index t
    ok (ltb index i, t')

  -- `if(!siftdown_(i, n)) siftup_(i)`
  unfoldable pub settle : ℕ → ℕ → HeapTimer → Run HeapTimer
  settle i n t = do (moved, t') ← siftdown i n t; if moved then ok t' else siftup i t'

  unfoldable pub add : ℕ → ℕ → ℕ → ℕ → HeapTimer → Run HeapTimer
  add now id timeout cb t =
      let node : TimerNode = record { id = id; expires = now + ms timeout; cb = cb } in
      elim (t.ref id) [
        | none ↦
            siftup (count t)
              (record { heap = t.heap ++ node ∷ []; ref = update t.ref id (some (count t)) })
        | some i ↦ settle i (count t) (record t {
          heap = set t.heap i (record (node_at t.heap i) { expires = now + ms timeout; cb = cb });
        })
      ]

  unfoldable pub del : ℕ → HeapTimer → Run HeapTimer
  del index t = do
    check (ltb index (count t))
    let n = count t - 1
    t' ← if ltb index n then swap_node index n t >>= settle index n else ok t
    ok (record { heap = take n t'.heap; ref = update t'.ref (node_at t'.heap n).id none })

  unfoldable pub pop : HeapTimer → Run HeapTimer
  pop t = del 0 t

  -- Returns the callback that runs, if one does.
  pub do_work : ℕ → HeapTimer → Run (Option ℕ × HeapTimer)
  do_work id t = if count t == 0 then ok (none, t) else elim (t.ref id) [
    | none ↦ ok (none, t)
    | some i ↦ del i t >>= λ t'. ok (some (node_at t.heap i).cb, t')
  ]

  unfoldable pub adjust : ℕ → ℕ → ℕ → HeapTimer → Run HeapTimer
  adjust now id timeout t = if count t == 0 then abort else elim (t.ref id) [
    | none ↦ abort
    | some i ↦
        siftdown i (count t) (record t {
          heap = set t.heap i (record (node_at t.heap i) { expires = now + ms timeout });
        })
        >>= λ r. ok r.1
  ]

  pub clear : HeapTimer → HeapTimer
  clear t = record { heap = []; ref = λ id. none }

  -- `tick` with the readings of the clock from the `k`-th on: `Clock::now()` is read once a round.
  -- Returns the callbacks that ran, how many readings are used up, and the timer.
  unfoldable pub tick_loop : (ℕ → ℕ) → ℕ → ℕ → HeapTimer → Run (List ℕ × ℕ × HeapTimer)
  tick_loop clock zero k t = out_of_fuel
  tick_loop clock (suc fuel) k t =
      let node = node_at t.heap 0 in
      let fire : Run (List ℕ × ℕ × HeapTimer) = do
        u ← pop t
        (cbs, k', w) ← tick_loop clock fuel (k + 1) u
        ok (node.cb ∷ cbs, k', w)
      in let test : Run (List ℕ × ℕ × HeapTimer) =
          if is_positive (ms_between (clock k) node.expires) then ok ([], k + 1, t) else fire in
        if count t == 0 then ok ([], k, t) else test

  unfoldable pub tick : (ℕ → ℕ) → ℕ → HeapTimer → Run (List ℕ × ℕ × HeapTimer)
  tick clock k t = tick_loop clock (count t + 1) k t

  -- Returns the callbacks that `tick` ran, the wait for the front, as the `int` that the `size_t` is
  -- cut to, and the timer.
  unfoldable pub get_next_tick : (ℕ → ℕ) → ℕ → HeapTimer → Run (List ℕ × ℤ × HeapTimer)
  get_next_tick clock k t = do
    (cbs, k', u) ← tick clock k t
    let res =
        if count u == 0
        then to_size_t (negsuc 0)
        else clamp (to_size_t (ms_between (clock k') (node_at u.heap 0).expires))
    ok (cbs, to_int res, u)
