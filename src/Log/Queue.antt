-- ===== src/Log/Queue.antt =====
-- code/log/blockqueue.h: `BlockDeque`, as steps of its producers and consumers.
-- Each critical section is a step. A thread in `wait` is counted; when it wakes it tests again, so
-- that a wake-up with no cause is a step as well. Notifications only wake threads.
pub mod Replay
mod Tests
use video_server.Base.{ℕ, ◌+◌, ◌-◌, ◌≤◌, ◌<◌, ◌≡◌, Bool, true, false, List, [], ◌∷◌, ◌++◌, length}

module _ (T : Type 0) where
  pub record BlockDeque : Type 0 where
    pub deq : List T
    pub capacity : ℕ
    pub is_close : Bool
    -- Producers and consumers in `wait`.
    pub producers : ℕ
    pub consumers : ℕ

  -- The constructor, after its `assert`.
  abbrev pub new_deque : ℕ → BlockDeque
  new_deque capacity = record {
    deq = [];
    capacity = capacity;
    is_close = false;
    producers = 0;
    consumers = 0;
  }

  -- What a step shows to the caller: an item put in at the back or the front, one taken out, `pop`
  -- returning false, all items dropped, or nothing.
  pub data Label : Type 0 where
    pushed_back pushed_front popped : T → Label
    gave_up dropped silent : Label

  pub data Move (q : BlockDeque) : Label → BlockDeque → Type 0 where
    -- `push_back`, `push_front`: the loop's test fails at once, or after some waits.
    pushes_back :
        (x : T)
        → length q.deq < q.capacity
        → Move q (pushed_back x) (record q { deq = q.deq ++ x ∷ [] })
    pushes_front :
        (x : T) → length q.deq < q.capacity → Move q (pushed_front x) (record q { deq = x ∷ q.deq })
    producer_waits :
        q.capacity ≤ length q.deq → Move q silent (record q { producers = q.producers + 1 })
    producer_wakes : 0 < q.producers → Move q silent (record q { producers = q.producers - 1 })
    -- `pop`, with or without a timeout
    pops : (x : T) (rest : List T) → q.deq ≡ x ∷ rest → Move q (popped x) (record q { deq = rest })
    consumer_waits : q.deq ≡ [] → Move q silent (record q { consumers = q.consumers + 1 })
    consumer_wakes :
        0 < q.consumers
        → q.is_close ≡ false
        → Move q silent (record q { consumers = q.consumers - 1 })
    consumer_stops :
        0 < q.consumers
        → q.is_close ≡ true
        → Move q gave_up (record q { consumers = q.consumers - 1 })
    times_out : 0 < q.consumers → Move q gave_up (record q { consumers = q.consumers - 1 })
    clears : Move q dropped (record q { deq = [] })
    closes : Move q dropped (record q { deq = []; is_close = true })

  pub data Moves (q : BlockDeque) : List Label → BlockDeque → Type 0 where
    none_yet : Moves q [] q
    then_one :
        {ls : List Label} {r s : BlockDeque} {l : Label}
        → Moves q ls r
        → Move r l s
        → Moves q (l ∷ ls) s
