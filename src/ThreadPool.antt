-- ===== src/ThreadPool.antt =====
-- code/pool/threadpool.h: the queue of tasks, and the threads that run them.
-- A step is what a thread does under the mutex, or a notification. A task is a number; `added` and
-- `started` are the history of the calls of `AddTask` and of the tasks taken off the queue.
pub mod Safety
pub mod Liveness
mod Tests
use video_server.Base.{
  ℕ, zero, suc, ◌+◌, ◌-◌, ◌<◌, ◌≡◌, Bool, true, false, List, [], ◌∷◌, ◌++◌, if◌then◌else◌, ltb,
}

pub record ThreadPool : Type 0 where
  pub tasks : List ℕ
  pub is_closed : Bool
  -- Threads that are about to look at the queue, that run a task, that wait, and that have ended.
  pub awake : ℕ
  pub busy : ℕ
  pub asleep : ℕ
  pub ended : ℕ
  -- Calls of `AddTask` before their `notify_one`, and of the destructor before its `notify_all`.
  pub notifying : ℕ
  pub closing : ℕ
  pub added : List ℕ
  pub started : List ℕ

-- The constructor.
abbrev pub init_pool : ℕ → ThreadPool
init_pool thread_count = record {
  tasks = [];
  is_closed = false;
  awake = thread_count;
  busy = 0;
  asleep = 0;
  ended = 0;
  notifying = 0;
  closing = 0;
  added = [];
  started = [];
}

-- What the threads do, and the notifications that are due.
pub data Runs (p : ThreadPool) : ThreadPool → Type 0 where
  takes :
      (task : ℕ) (rest : List ℕ)
      → p.tasks ≡ task ∷ rest
      → 0 < p.awake
      → Runs p (record p {
        tasks = rest;
        awake = p.awake - 1;
        busy = p.busy + 1;
        started = p.started ++ task ∷ [];
      })
  finishes : 0 < p.busy → Runs p (record p { busy = p.busy - 1; awake = p.awake + 1 })
  breaks :
      p.tasks ≡ []
      → p.is_closed ≡ true
      → 0 < p.awake
      → Runs p (record p { awake = p.awake - 1; ended = p.ended + 1 })
  waits :
      p.tasks ≡ []
      → p.is_closed ≡ false
      → 0 < p.awake
      → Runs p (record p { awake = p.awake - 1; asleep = p.asleep + 1 })
  notifies_one :
      0 < p.notifying
      → 0 < p.asleep
      → Runs p
          (record p { notifying = p.notifying - 1; asleep = p.asleep - 1; awake = p.awake + 1 })
  notifies_none : 0 < p.notifying → p.asleep ≡ 0 → Runs p (record p { notifying = p.notifying - 1 })
  notifies_all :
      0 < p.closing
      → Runs p (record p { closing = p.closing - 1; asleep = 0; awake = p.awake + p.asleep })

-- What else can happen: a call of `AddTask` or of the destructor, none of them after the destructor's,
-- and a thread that wakes up unasked.
pub data Happens (p : ThreadPool) : ThreadPool → Type 0 where
  adds :
      (task : ℕ)
      → p.is_closed ≡ false
      → Happens p (record p {
        tasks = p.tasks ++ task ∷ [];
        notifying = p.notifying + 1;
        added = p.added ++ task ∷ [];
      })
  closes : p.is_closed ≡ false → Happens p (record p { is_closed = true; closing = 1 })
  wakes : 0 < p.asleep → Happens p (record p { asleep = p.asleep - 1; awake = p.awake + 1 })

pub data Reachable (thread_count : ℕ) : ThreadPool → Type 0 where
  starts : Reachable thread_count (init_pool thread_count)
  runs : {p q : ThreadPool} → Reachable thread_count p → Runs p q → Reachable thread_count q
  happens : {p q : ThreadPool} → Reachable thread_count p → Happens p q → Reachable thread_count q
