-- ===== src/Log/Queue/Replay.antt =====
-- What holds of the log's queue after any steps of its producers and consumers.
use video_server.Base.{
  ℕ, ◌≤◌, ◌≡◌, refl, sym, ap, ◌∙◌, List, [], ◌∷◌, ◌++◌, arith, length, length-append, drop,
}
use video_server.Log.Queue.{
  BlockDeque, new_deque, Label, pushed_back, pushed_front, popped, gave_up, dropped, silent, Move,
  pushes_back, pushes_front, producer_waits, producer_wakes, pops, consumer_waits, consumer_wakes,
  consumer_stops, times_out, clears, closes, Moves, none_yet, then_one,
}

module _ (T : Type 0) where
  -- The items that a plain list has left after the labels, the last one first.
  abbrev pub replay : List (Label T) → List T
  replay [] = []
  replay (pushed_back x ∷ ls) = replay ls ++ x ∷ []
  replay (pushed_front x ∷ ls) = x ∷ replay ls
  replay (popped x ∷ ls) = drop 1 (replay ls)
  replay (dropped ∷ ls) = []
  replay (gave_up ∷ ls) = replay ls
  replay (silent ∷ ls) = replay ls

  -- Each item that was popped was the first of those that were in the list.
  abbrev pub PopsFirst : List (Label T) → Type 0
  PopsFirst [] = Unit {0}
  PopsFirst (popped x ∷ ls) = (replay ls ≡ x ∷ replay (popped x ∷ ls)) × PopsFirst ls
  PopsFirst (pushed_back x ∷ ls) = PopsFirst ls
  PopsFirst (pushed_front x ∷ ls) = PopsFirst ls
  PopsFirst (dropped ∷ ls) = PopsFirst ls
  PopsFirst (gave_up ∷ ls) = PopsFirst ls
  PopsFirst (silent ∷ ls) = PopsFirst ls

  -- After the labels `ls` the queue is what a plain list would be, and within its capacity.
  abbrev pub IsReplayed : List (Label T) → ℕ → BlockDeque T → Type 0
  IsReplayed ls capacity q =
      (q.deq ≡ replay ls) × ((q.capacity ≡ capacity) × ((length q.deq ≤ capacity) × PopsFirst ls))

  Move-IsReplayed :
      (q r : BlockDeque T) (l : Label T) (ls : List (Label T)) (capacity : ℕ)
      → Move T q l r
      → IsReplayed ls capacity q
      → IsReplayed (l ∷ ls) capacity r
  Move-IsReplayed q r l ls n (pushes_back x h) (e, (c, (b, f))) =
      (ap (λ xs. xs ++ x ∷ []) e, (c, (omega (arith, length-append q.deq (x ∷ [])), f)))
  Move-IsReplayed q r l ls n (pushes_front x h) (e, (c, (b, f))) =
      (ap (◌∷◌ x) e, (c, (omega arith, f)))
  Move-IsReplayed q r l ls n (producer_waits h) k = k
  Move-IsReplayed q r l ls n (producer_wakes h) k = k
  Move-IsReplayed q r l ls n (pops x rest first) (e, (c, (b, f))) =
      let left : replay ls ≡ x ∷ rest = sym e ∙ first in
      (
        sym (ap (drop 1) left),
        (c, (omega (arith, ap length first), (left ∙ ap (◌∷◌ x) (sym (ap (drop 1) left)), f))),
      )
  Move-IsReplayed q r l ls n (consumer_waits e) k = k
  Move-IsReplayed q r l ls n (consumer_wakes h e) k = k
  Move-IsReplayed q r l ls n (consumer_stops h e) k = k
  Move-IsReplayed q r l ls n (times_out h) k = k
  Move-IsReplayed q r l ls n clears (e, (c, (b, f))) = (refl, (c, (omega arith, f)))
  Move-IsReplayed q r l ls n closes (e, (c, (b, f))) = (refl, (c, (omega arith, f)))

  -- Whatever steps producers and consumers take from a new queue, it never holds more items than its
  -- capacity, its items are those that the same calls leave in a plain list, and each item that a
  -- `pop` returned was the first one at that time.
  pub Moves-IsReplayed :
      (capacity : ℕ) (ls : List (Label T)) (q : BlockDeque T)
      → Moves T (new_deque T capacity) ls q
      → IsReplayed ls capacity q
  Moves-IsReplayed n ls q none_yet = (refl, (refl, (omega arith, tt)))
  Moves-IsReplayed n ls q (then_one {ls = before} {r = r} {l = l} steps one) =
      Move-IsReplayed r q l before n one (Moves-IsReplayed n before r steps)
