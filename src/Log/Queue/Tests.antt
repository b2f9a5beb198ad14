-- ===== src/Log/Queue/Tests.antt =====
-- A run of the log's queue, and its theorem at it.
use video_server.Base.{ℕ, refl, false, [], ◌∷◌, arith}
use video_server.Log.Queue.{
  BlockDeque, new_deque, pushed_back, popped, silent, Moves, pushes_back, producer_waits, pops,
  none_yet, then_one,
}
use video_server.Log.Queue.Replay.{IsReplayed, Moves-IsReplayed}

-- A queue for one item: an item goes in, a second producer waits, and the item goes out.
abbrev used : BlockDeque ℕ
used = record { deq = []; capacity = 1; is_close = false; producers = 1; consumers = 0 }

used-Moves : Moves ℕ (new_deque ℕ 1) (popped 5 ∷ silent ∷ pushed_back 5 ∷ []) used
used-Moves =
    then_one
      (then_one (then_one none_yet (pushes_back 5 (omega arith))) (producer_waits (omega arith)))
      (pops 5 [] refl)

Moves-IsReplayed_example : IsReplayed ℕ (popped 5 ∷ silent ∷ pushed_back 5 ∷ []) 1 used
Moves-IsReplayed_example =
    Moves-IsReplayed ℕ 1 (popped 5 ∷ silent ∷ pushed_back 5 ∷ []) used used-Moves
