-- ===== src/Timer/Heap/Tests.antt =====
-- Runs of the timer, and its theorems at concrete inputs.
use video_server.Base.{
  ℕ, zero, suc, ◌+◌, ◌*◌, ◌^◌, ◌≤◌, ◌<◌, ◌≡◌, refl, inl, [], ◌∷◌, none, some, arith,
}
use video_server.Base.Int.{negsuc}
use video_server.Base.Run.{ok, abort, ◌>>=◌, Ensures}
use video_server.Timer.Heap.{
  TimerNode, HeapTimer, update, siftup, siftup_loop, siftdown, siftdown_loop, swap_node, settle,
  add, del, pop, tick, tick_loop, get_next_tick, node_at,
}
use video_server.Timer.Heap.Order.{IsValid, up, key}
use video_server.Timer.Heap.Delete.{Without, del_removes}
use video_server.Timer.Heap.Insert.{With, added, add_inserts, add-abort}
use video_server.Timer.Heap.Ticks.{IsAbove, Ticked, tick_fires, get_next_tick-eq-ms_between}

abbrev stray : TimerNode
stray = record { id = 0; expires = 0; cb = 0 }

abbrev high_stray : TimerNode
high_stray = record { id = 0; expires = 10 ^ 18; cb = 0 }

abbrev node : ℕ → ℕ → TimerNode
node id expires = record { id = id; expires = expires; cb = id }

abbrev empty : HeapTimer
empty = record { heap = []; ref = λ id. none }

-- Two connections, 7 due before 9.
abbrev pair : HeapTimer
pair = record {
  heap = node 7 5000000 ∷ node 9 8000000 ∷ [];
  ref = update (update (λ id. none) 7 (some 0)) 9 (some 1);
}

empty-IsValid : IsValid high_stray empty
empty-IsValid = record {
  indexed = record {
    placed = λ i h. absurd (omega arith);
    found = λ id i e. absurd (ground (arith, e));
  };
  ordered = λ c p h. absurd (omega arith);
  small = omega arith;
}

pair_placed : (i : ℕ) → i < 2 → pair.ref (node_at stray pair.heap i).id ≡ some i
pair_placed zero h = refl
pair_placed (suc zero) h = refl
pair_placed (suc (suc i)) h = absurd (omega arith)

pair_ordered : (c : ℕ) → 0 < c → c < 2 → key stray pair (up c) ≤ key stray pair c
pair_ordered zero p h = absurd (omega arith)
pair_ordered (suc zero) p h = omega arith
pair_ordered (suc (suc c)) p h = absurd (omega arith)

pair-IsValid : IsValid stray pair
pair-IsValid = record {
  indexed = record { placed = pair_placed; found = λ id i e. ground arith };
  ordered = pair_ordered;
  small = omega arith;
}

pair-IsAbove : IsAbove stray pair
pair-IsAbove id n e = ground (arith, e)

-- The readings of a clock that runs `step` further each time.
abbrev clock : ℕ → ℕ → ℕ → ℕ
clock start step i = start + i * step

add_to_empty : add high_stray 0 7 5 7 empty ≡ abort
unfolding add siftup siftup_loop swap_node
add_to_empty = refl

del_removes_example : Ensures (Without stray 7 pair) (del stray 0 pair)
del_removes_example = del_removes stray 0 pair pair-IsValid (omega arith) (omega arith)

add_inserts_example :
    Ensures (With stray (added 1000000 12 3 12) pair) (add stray 1000000 12 3 12 pair)
add_inserts_example =
    add_inserts stray 1000000 12 3 12 pair pair-IsValid (omega arith) (omega arith)

add-abort_example : add high_stray 0 7 5 7 empty ≡ abort
add-abort_example =
    add-abort high_stray 0 7 5 7 empty empty-IsValid (omega arith) refl (inl refl) (omega arith)

tick_fires_example :
    Ensures (Ticked stray (clock 4100000 100) pair) (tick stray (clock 4100000 100) 0 pair)
tick_fires_example =
    tick_fires stray (clock 4100000 100) 0 pair (λ i. omega arith) pair-IsValid pair-IsAbove

tick_runs : tick stray (clock 4100000 100) 0 pair >>= (λ (cbs, k, t). ok cbs) ≡ ok (7 ∷ [])
unfolding tick tick_loop pop del settle siftdown siftdown_loop siftup siftup_loop swap_node
tick_runs = refl

-- The clock goes from 3.9 ms to 7 ms between the two readings; the front is due at 5 ms.
get_next_tick-eq-ms_between_example :
    get_next_tick stray (clock 3900000 3100000) 0 pair ≡ ok ([], negsuc 1, pair)
unfolding tick tick_loop
get_next_tick-eq-ms_between_example =
    get_next_tick-eq-ms_between stray (clock 3900000 3100000) 0 pair [] 1 pair refl (omega arith)
      (omega arith) (omega arith)
