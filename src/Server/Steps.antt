-- ===== src/Server/Steps.antt =====
-- The loop of code/server/webserver.cpp and the workers of its thread pool, step by step.
-- A task is run as one step, at any time after it is added and in any order: what threads do to one
-- connection at once is not in the model.
pub mod Sound
pub mod Exclusive
pub mod Claims
mod Tests
use video_server.Base.{ℕ, ◌+◌, ◌≤◌, ◌≡◌, Bool, List, [], ◌∷◌, ◌++◌, none, some}
use video_server.Base.Run.{Run, ok, abort, ◌>>=◌}
use video_server.Buffer.{Readv, Written}
use video_server.Conn.{ServerConn}
use video_server.Conn.Process.{World}
use video_server.Timer.Heap.{TimerNode, clear}
use video_server.Server.{
  Armed, for_reading, for_writing, nothing, closed, Served, on_read, on_write,
}
use video_server.Server.Users.{Users, lookup, insert}
use video_server.Server.Interest.{EpollCall, mod_fd, del_fd}
use video_server.Server.Loop.{
  Task, reads, writes, Event, Accepted, Config, WebServer, next_tick, wait_events, handle_next,
}
use video_server.Server.Loop.Accept.{AreAccepted}
use video_server.Server.Loop.Round.{AreReported}

abbrev pub task_fd : Task → ℕ
task_fd (reads fd) = fd
task_fd (writes fd) = fd

-- What a handler does to the interest list: `ModFd`, nothing, or the `DelFd` of `CloseConn_`.
abbrev pub rearm : Armed → ℕ → List EpollCall → List EpollCall
rearm for_reading fd calls = mod_fd fd ∷ calls
rearm for_writing fd calls = mod_fd fd ∷ calls
rearm nothing fd calls = calls
rearm closed fd calls = del_fd fd ∷ calls

-- The socket during a task: what `readv` delivers, and how much `writev` takes.
pub record Socket : Type 0 where
  pub is_et : Bool
  pub delivers : List Readv
  pub takes : ℕ → List ℕ → Written

-- The constructor, at a time.
abbrev pub started : ℕ → WebServer
started clock = record {
  users = [];
  user_count = 0;
  timer = record { heap = []; ref = λ id. none };
  epoll = [];
  tasks = [];
  ready = [];
  clock = clock;
}

module _ (world : World) where
  open world use {sql}

  abbrev pub handler : Socket → Task → ServerConn → ℕ → sql.Database → Run (Served world)
  handler io (reads fd) c users db = on_read world io.is_et io.delivers c users db
  handler io (writes fd) c users db = on_write world io.takes io.is_et c users db

  abbrev pub finish : ℕ → Served world → WebServer → WebServer
  finish fd v s = record s {
    users = insert fd v.conn s.users;
    user_count = v.user_count;
    epoll = rearm v.armed v.conn.fd s.epoll;
  }

  -- A task of the pool: the bound `OnRead_` or `OnWrite_`, on the connection under its descriptor.
  pub run_task : Socket → Task → sql.Database → WebServer → Run (WebServer × sql.Database)
  run_task io task db s = elim (lookup (task_fd task) s.users) [
    | none ↦ abort
    | some c ↦ handler io task c s.user_count db >>= λ v. ok (finish (task_fd task) v s, v.database)
  ]

  module _ (stray : TimerNode) (blank : ServerConn) (cfg : Config) where
    -- The loop begins a round, it handles an event, or a worker runs a task.
    pub data Step (s : WebServer) : WebServer → Type 0 where
      begins :
          (readings : ℕ → ℕ) (es : List Event) (u : WebServer)
          → s.ready ≡ []
          → s.clock ≤ readings 0
          → ((i : ℕ) → readings i ≤ readings (i + 1))
          → next_tick stray cfg readings s ≡ ok u
          → AreReported cfg u.epoll es
          → Step s (wait_events cfg es u)
      handles :
          (now : ℕ) (accepts : List Accepted) (u : WebServer)
          → s.clock ≤ now
          → AreAccepted s.users s.clock accepts
          → handle_next stray blank cfg now accepts s ≡ ok u
          → Step s u
      works :
          (io : Socket) (front back : List Task) (task : Task) (db db' : sql.Database)
          (u : WebServer)
          → s.tasks ≡ front ++ task ∷ back
          → run_task io task db (record s { tasks = front ++ back }) ≡ ok (u, db')
          → Step s u

    -- What the server can become.
    pub data Reach (s : WebServer) : WebServer → Type 0 where
      here : Reach s s
      next : {t u : WebServer} → Reach s t → Step t u → Reach s u
