-- ===== src/Server/Steps/Sound.antt =====
-- Every step keeps the server sound, and the loop never fails an assertion.
use video_server.Base.{
  ℕ, ◌+◌, ◌≤◌, ◌<◌, ◌≡◌, refl, ◌∙◌, ◌⊎◌, inl, inr, true, not, ◌&&◌, List, [], ◌++◌, some, arith,
  All-mono, ◌==◌, if◌then◌else◌, Option-cases,
}
use video_server.Base.Run.{Ensures, Ensures-at, Yields, yields, aborts, Yields-at, Yields-bind}
use video_server.Conn.{ServerConn}
use video_server.Conn.Process.{World}
use video_server.Timer.Heap.{TimerNode, ms}
use video_server.Server.{Armed, for_reading, for_writing, nothing, closed, Served}
use video_server.Server.Kept.{Keeps, is_closed, on_read-Keeps, on_write-Keeps}
use video_server.Server.Users.{
  lookup, insert, lookup-insert, is_known, is_open, open_count, open_count-insert,
}
use video_server.Server.Interest.{
  EpollCall, interest, is_registered, is_registered-mod, is_registered-del,
}
use video_server.Server.Loop.{
  Task, reads, writes, Event, Accepted, Config, WebServer, next_tick, handle_next,
}
use video_server.Server.Loop.Sound.{HasUsers, HasUsers-insert}
use video_server.Server.Loop.Timers.{HasTimer-mono, is_timed}
use video_server.Server.Loop.Accept.{IsServed, IsSound, AreAccepted}
use video_server.Server.Loop.Round.{
  AreWaiting, IsSound-tasks, next_tick-IsSound, wait_events-IsSound,
}
use video_server.Server.Loop.Dispatch.{handle_next-IsSound}
use video_server.Server.Steps.{
  task_fd, rearm, Socket, started, handler, finish, run_task, Step, begins, handles, works, Reach,
  here, next,
}

-- Which descriptors are in the interest list after a handler.
is_registered-rearm :
    (a : Armed) (fd j : ℕ) (calls : List EpollCall)
    → is_registered (interest j (rearm a fd calls)) ≡ (
        if fd == j
        then not (is_closed a) && is_registered (interest j calls)
        else is_registered (interest j calls))
is_registered-rearm for_reading fd j calls = ground (arith, is_registered-mod fd j calls)
is_registered-rearm for_writing fd j calls = ground (arith, is_registered-mod fd j calls)
is_registered-rearm nothing fd j calls = ground arith
is_registered-rearm closed fd j calls = ground (arith, is_registered-del fd j calls)

module _ (world : World) where
  open world use {sql}

  pub handler-Keeps :
      (io : Socket) (task : Task) (c : ServerConn) (users : ℕ) (db : sql.Database)
      → Yields (Keeps world c users) (handler world io task c users db)
  handler-Keeps io (reads fd) c users db = on_read-Keeps world io.is_et io.delivers c users db
  handler-Keeps io (writes fd) c users db = on_write-Keeps world io.takes io.is_et c users db

  module _ (stray : TimerNode) (cfg : Config) where
    finish-HasUsers :
        (fd : ℕ) (c : ServerConn) (v : Served world) (s : WebServer)
        → HasUsers s
        → lookup fd s.users ≡ some c
        → Keeps world c s.user_count v
        → HasUsers (finish world fd v s)
    finish-HasUsers fd c v s h e k =
        let own : v.conn.fd ≡ fd = k.0 ∙ h.named fd c e in
        let was : is_open fd s.users ≡ not c.is_close = rw e refl in
        let some_open = open_count-insert fd v.conn s.users in
        HasUsers-insert fd v.conn s _ h refl own (ground (arith, was, some_open, h.counted, k.1))
          (ground (arith, h.few, k.1))
          (λ j.
            rw own
              (ground (arith, is_registered-rearm v.armed fd j s.epoll, h.watched j, was, k.1)))

    -- A task that returns leaves the server sound.
    pub run_task-IsSound :
        (io : Socket) (task : Task) (db : sql.Database) (s : WebServer)
        → IsSound stray cfg s
        → Yields (λ r. IsSound stray cfg r.0) (run_task world io task db s)
    unfolding run_task
    run_task-IsSound io task db s v = elim (Option-cases (lookup (task_fd task) s.users)) [
      | inl e ↦ rw (e, run_task) aborts
      | inr (c, e) ↦
          rw (e, run_task)
            (Yields-bind (handler-Keeps io task c s.user_count db) λ r k. yields (record {
              users = finish-HasUsers (task_fd task) c r s v.users e k;
              timer =
                  HasTimer-mono stray cfg.timeout s.users (insert (task_fd task) r.conn s.users)
                    s.clock s.clock s.timer (λ j p. known r j p) (omega arith) v.timer;
              timed = λ j o.
                  v.timed j
                    (ground (arith, k.1, e, lookup-insert (task_fd task) j r.conn s.users, o));
              pending = All-mono s.ready (λ x. served r (Event.fd x)) v.pending;
            }))
    ]
      where
        known :
            (r : Served world) (j : ℕ)
            → is_known j s.users ≡ true
            → is_known j (insert (task_fd task) r.conn s.users) ≡ true
        known r j p = rw (lookup-insert (task_fd task) j r.conn s.users) (ground (arith, p))

        served :
            (r : Served world) (j : ℕ)
            → IsServed stray cfg s j
            → (j ≡ cfg.listen_fd)
              ⊎ ((is_known j (insert (task_fd task) r.conn s.users) ≡ true)
                  × (is_timed stray cfg.timeout s.timer j ≡ true))
        served r j (inl p) = inl p
        served r j (inr (p, t)) = inr (known r j p, t)

module _ (world : World) (stray : TimerNode) (blank : ServerConn) (cfg : Config) where
  pub Step-IsSound :
      {s u : WebServer} → Step world stray blank cfg s u → IsSound stray cfg s → IsSound stray cfg u
  Step-IsSound {s} (begins readings es u empty later mono e reported) v =
      let (sound, _, _) =
        Ensures-at u e (next_tick-IsSound stray cfg readings s v empty later mono) in
      wait_events-IsSound stray cfg es u sound reported
  Step-IsSound {s} (handles now accepts u later new e) v =
      Ensures-at u e (handle_next-IsSound stray blank cfg now accepts s v later new)
  Step-IsSound {s} (works io front back task db db' u at e) v =
      Yields-at (u, db') e
        (run_task-IsSound world stray cfg io task db _
          (IsSound-tasks stray cfg s (front ++ back) v))

  -- However the loop and the workers take turns, and whatever the kernel, the clock and the clients do,
  -- `userCount` is the number of open connections and at most `MAX_FD`, the open connections are those
  -- in the interest list of `epoll`, each of them has a timeout in the timer if there are any, the timer
  -- is a heap that agrees with its map and calls back known connections only, and every event that is
  -- still to be handled is of the listening socket or of a known connection. The condition is a state
  -- that is sound, as the server's first one is.
  pub Reach-IsSound :
      {s u : WebServer}
      → IsSound stray cfg s
      → Reach world stray blank cfg s u
      → IsSound stray cfg u
  Reach-IsSound v here = v
  Reach-IsSound v (next r st) = Step-IsSound st (Reach-IsSound v r)

  pub started-IsSound :
      (clock : ℕ) → stray.expires < clock + ms cfg.timeout → IsSound stray cfg (started clock)
  unfolding interest lookup open_count
  started-IsSound clock early = record {
    users = record {
      named = λ fd c e. cc;
      counted = refl;
      few = omega arith;
      watched = λ fd. refl;
    };
    timer = record {
      valid = record {
        indexed = record { placed = λ i h. absurd (omega arith); found = λ id i e. cc };
        ordered = λ c p h. absurd (omega arith);
        small = omega arith;
      };
      held = λ fd node e. cc;
      early = early;
    };
    timed = λ fd e. cc;
    pending = tt;
  }

  -- In every state that the server gets to, the next event of the last `Wait` is handled to its end:
  -- no assertion of the loop, of the connection or of the timer fails, and what is left is sound. The
  -- conditions are that the stray node of the timer expires before the first timeout, that the clock
  -- does not go back, and what is documented of `accept`.
  pub handle_next-Reach :
      (start now : ℕ) (accepts : List Accepted) {s : WebServer}
      → stray.expires < start + ms cfg.timeout
      → Reach world stray blank cfg (started start) s
      → s.clock ≤ now
      → AreAccepted s.users s.clock accepts
      → Ensures (IsSound stray cfg) (handle_next stray blank cfg now accepts s)
  handle_next-Reach start now accepts {s} early r later new =
      handle_next-IsSound stray blank cfg now accepts s
        (Reach-IsSound (started-IsSound start early) r) later new

  -- In every such state with no event left, `GetNextTick` returns, with no timeout in the timer that
  -- is due at its first reading of the clock, so that no open connection has outlived its timeout; and
  -- no assertion of the timer or of `CloseConn_` fails. The conditions are those on the stray node and
  -- the clock.
  pub next_tick-Reach :
      (start : ℕ) (readings : ℕ → ℕ) {s : WebServer}
      → stray.expires < start + ms cfg.timeout
      → Reach world stray blank cfg (started start) s
      → s.ready ≡ []
      → s.clock ≤ readings 0
      → ((i : ℕ) → readings i ≤ readings (i + 1))
      → Ensures
          (λ u. IsSound stray cfg u × (u.ready ≡ []) × AreWaiting stray cfg (readings 0) u.timer)
          (next_tick stray cfg readings s)
  next_tick-Reach start readings {s} early r empty later mono =
      next_tick-IsSound stray cfg readings s (Reach-IsSound (started-IsSound start early) r) empty
        later mono
