-- ===== src/Server/Steps/Exclusive.antt =====
-- `EPOLLONESHOT` gives each connection to one thread at a time, as long as no timeout closes it.
use video_server.Base.{
  ℕ, ◌+◌, ◌≤◌, ◌<◌, ◌≡◌, ap, ◌∙◌, ◌≢◌, inl, inr, false, not, ◌&&◌, List, [], ◌∷◌, ◌++◌, arith, ◌==◌,
  if◌then◌else◌, Option-cases, ltb,
}
use video_server.Base.Run.{Yields, yields, aborts, Yields-at, Yields-bind}
use video_server.Conn.{ServerConn}
use video_server.Conn.Process.{World}
use video_server.Timer.Heap.{TimerNode, ms}
use video_server.Server.{Armed, for_reading, for_writing, nothing, closed}
use video_server.Server.Kept.{is_closed}
use video_server.Server.Users.{lookup, lookup-insert, is_open, one_if}
use video_server.Server.Interest.{
  EpollCall, interest, is_registered, is_enabled, is_enabled-mod, is_enabled-del,
  is_registered_of_enabled,
}
use video_server.Server.Loop.{Task, Event, Config, WebServer, next_tick, wait_events}
use video_server.Server.Loop.Sound.{HasUsers}
use video_server.Server.Loop.Accept.{IsSound}
use video_server.Server.Loop.Round.{AreReported, IsSound-tasks}
use video_server.Server.Steps.{
  task_fd, rearm, Socket, started, run_task, Step, begins, handles, works, Reach, here, next,
}
use video_server.Server.Steps.Sound.{handler-Keeps, Reach-IsSound, started-IsSound}
use video_server.Server.Steps.Claims.{
  event_count, task_count, claims, IsExclusive, task_count-append, report_all-claims,
  handle_next-IsExclusive,
}

-- A task ends: its claim goes, or becomes the interest in the next event.
module _ (world : World) (fd : ℕ) where
  open world use {sql}

  is_enabled-rearm :
      (a : Armed) (k : ℕ) (calls : List EpollCall)
      → one_if (is_enabled (interest fd (rearm a k calls))) ≤ (
          if k == fd
          then one_if (not (is_closed a) && is_registered (interest fd calls))
          else one_if (is_enabled (interest fd calls)))
  is_enabled-rearm for_reading k calls = ground (arith, is_enabled-mod k fd calls)
  is_enabled-rearm for_writing k calls = ground (arith, is_enabled-mod k fd calls)
  is_enabled-rearm nothing k calls = ground (arith, is_registered_of_enabled (interest fd calls))
  is_enabled-rearm closed k calls = ground (arith, is_enabled-del k fd calls)

  run_task-IsExclusive :
      (io : Socket) (task : Task) (db : sql.Database) (s : WebServer)
      → HasUsers s
      → one_if (task_fd task == fd) + claims fd s ≤ one_if (is_open fd s.users)
      → Yields (λ r. IsExclusive fd r.0) (run_task world io task db s)
  unfolding run_task
  run_task-IsExclusive io task db s v h = elim (Option-cases (lookup (task_fd task) s.users)) [
    | inl e ↦ rw (e, run_task) aborts
    | inr (c, e) ↦
        rw (e, run_task)
          (Yields-bind (handler-Keeps world io task c s.user_count db) λ r k.
            let own : r.conn.fd ≡ task_fd task = k.0 ∙ v.named (task_fd task) c e in
            yields (
              rw own (
                ground (
                  arith,
                  h,
                  e,
                  k.1,
                  v.watched fd,
                  lookup-insert (task_fd task) fd r.conn s.users,
                  is_enabled-rearm r.armed (task_fd task) s.epoll,
                ))))
  ]

module _ (world : World) (stray : TimerNode) (blank : ServerConn) (cfg : Config) (fd : ℕ)
    (never : cfg.timeout ≡ 0) (differs : fd ≢ cfg.listen_fd) where
  wait_events-IsExclusive :
      (es : List Event) (s : WebServer)
      → s.ready ≡ []
      → AreReported cfg s.epoll es
      → IsExclusive fd s
      → IsExclusive fd (wait_events cfg es s)
  unfolding wait_events
  wait_events-IsExclusive es s empty reported h =
      let none_left : event_count fd s.ready ≡ 0 = ap (event_count fd) empty in
      omega (arith, h, none_left, report_all-claims cfg fd es s.epoll differs reported)

  next_tick-IsExclusive :
      (readings : ℕ → ℕ) (s : WebServer)
      → s.ready ≡ []
      → IsExclusive fd s
      → Yields (λ u. (u.ready ≡ []) × IsExclusive fd u) (next_tick stray cfg readings s)
  unfolding next_tick
  next_tick-IsExclusive readings s empty h =
      let none_due : ltb 0 cfg.timeout ≡ false = ground (arith, never) in
      rw (none_due, next_tick) (yields (empty, h))

  Step-IsExclusive :
      {s u : WebServer}
      → Step world stray blank cfg s u
      → IsSound stray cfg s
      → IsExclusive fd s
      → IsExclusive fd u
  Step-IsExclusive {s} (begins readings es u empty later mono e reported) v h =
      let (none_left, kept) = Yields-at u e (next_tick-IsExclusive readings s empty h) in
      wait_events-IsExclusive es u none_left reported kept
  Step-IsExclusive {s} (handles now accepts u later new e) v h =
      Yields-at u e (handle_next-IsExclusive stray blank cfg fd never differs now accepts s v new h)
  Step-IsExclusive {s} (works io front back task db db' u at e) v h =
      let before : task_count fd s.tasks ≡ task_count fd (front ++ task ∷ back) =
        ap (task_count fd) at in
      let split = task_count-append fd front (task ∷ back) in
      let joined = task_count-append fd front back in
      let users = IsSound-tasks stray cfg s (front ++ back) v in
      Yields-at (u, db') e
        (run_task-IsExclusive world fd io task db (record s { tasks = front ++ back }) users.users
          (omega (arith, h, before, split, joined)))

  -- A connection is given to one thread at a time: in every state that the server without timeouts gets
  -- to from its start, the events of a connection that are to come (its interest is enabled), that are
  -- to be handled, and that a task is there for are one together at most, and none if the connection is
  -- closed. The conditions are that the descriptor is not that of the listening socket, and that the stray
  -- node's time is before the start.
  pub Reach-IsExclusive :
      (start : ℕ) {s : WebServer}
      → stray.expires < start + ms cfg.timeout
      → Reach world stray blank cfg (started start) s
      → IsExclusive fd s
  unfolding interest lookup
  Reach-IsExclusive start early here = omega arith
  Reach-IsExclusive start early (next {t} r st) =
      Step-IsExclusive st
        (Reach-IsSound world stray blank cfg (started-IsSound world stray blank cfg start early) r)
        (Reach-IsExclusive start early r)
