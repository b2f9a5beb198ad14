-- ===== src/ThreadPool/Tests.antt =====
-- Runs of the thread pool, and its theorems at concrete inputs.
use video_server.Base.{◌+◌, ◌≤◌, false, [], ◌∷◌, refl, arith}
use video_server.ThreadPool.{
  ThreadPool, waits, takes, notifies_one, adds, Reachable, starts, runs, happens,
}
use video_server.ThreadPool.Safety.{IsSafe, Reachable-IsSafe}
use video_server.ThreadPool.Liveness.{
  Course, here, further, weight, Course-weight, Drains, Reachable-Drains,
}

-- Of two threads one waits; a task has been added, and its notification is due.
abbrev told : ThreadPool
told = record {
  tasks = 7 ∷ [];
  is_closed = false;
  awake = 1;
  busy = 0;
  asleep = 1;
  ended = 0;
  notifying = 1;
  closing = 0;
  added = 7 ∷ [];
  started = [];
}

told-Reachable : Reachable 2 told
told-Reachable = happens (runs starts (waits refl refl (omega arith))) (adds 7 refl)

-- The notification, and the task.
abbrev busy : ThreadPool
busy = record told { tasks = []; awake = 1; busy = 1; asleep = 0; notifying = 0; started = 7 ∷ [] }

told-Course : Course told 2 busy
told-Course =
    further (further here (notifies_one (omega arith) (omega arith)))
      (takes 7 [] refl (omega arith))

Reachable-IsSafe_example : IsSafe 2 told
Reachable-IsSafe_example = Reachable-IsSafe 2 (omega arith) told told-Reachable

Course-weight_example : 2 + weight 2 (omega arith) busy ≤ weight 2 (omega arith) told
Course-weight_example = Course-weight 2 (omega arith) told busy 2 told-Reachable told-Course

Reachable-Drains_example : Drains 2 (omega arith) told
Reachable-Drains_example = Reachable-Drains 2 (omega arith) told told-Reachable
