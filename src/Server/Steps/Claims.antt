-- ===== src/Server/Steps/Claims.antt =====
-- How many threads can act on a connection, and that an event's handling does not add to them.
use video_server.Base.{
  ℕ, ◌+◌, ◌≤◌, ◌≡◌, refl, ap, ◌≢◌, inl, inr, false, List, [], ◌∷◌, ◌++◌, arith, ◌==◌, if◌then◌else◌,
  Bool-cases, Option-cases, ltb,
}
use video_server.Base.Run.{Ensures-weaken, Yields, yields, aborts, Yields-if, Ensures-Yields}
use video_server.Conn.{ServerConn}
use video_server.Timer.Heap.{TimerNode}
use video_server.Server.Users.{lookup, is_open, one_if}
use video_server.Server.Interest.{
  EpollCall, interest, is_enabled, is_enabled-add, is_enabled-report, reports,
}
use video_server.Server.Loop.{
  Task, reads, writes, Event, Accepted, Config, WebServer, handle_next, report_all, dispatch, deal,
  extent_time, has, epoll_gone, epoll_in, epoll_out,
}
use video_server.Server.Loop.Sound.{Closes, close_client-Closes}
use video_server.Server.Loop.Accept.{IsServed, IsSound, AreAccepted, Adds, deal_listen-keeps}
use video_server.Server.Loop.Round.{AreReported}
use video_server.Server.Loop.Dispatch.{IsSound-rest}
use video_server.Server.Steps.{task_fd}

-- The events of a connection among these, and its tasks.
abbrev pub event_count : ℕ → List Event → ℕ
event_count fd [] = 0
event_count fd (e ∷ es) = one_if (e.fd == fd) + event_count fd es

abbrev pub task_count : ℕ → List Task → ℕ
task_count fd [] = 0
task_count fd (t ∷ ts) = one_if (task_fd t == fd) + task_count fd ts

-- How many threads can be brought to act on the connection: by an event that is to come, by one that
-- is to be handled, and by a task.
abbrev pub claims : ℕ → WebServer → ℕ
claims fd s =
    one_if (is_enabled (interest fd s.epoll)) + event_count fd s.ready + task_count fd s.tasks

-- One for an open connection at most, and none for a closed one.
abbrev pub IsExclusive : ℕ → WebServer → Type 0
IsExclusive fd s = claims fd s ≤ one_if (is_open fd s.users)

pub task_count-append :
    (fd : ℕ) (xs ys : List Task) → task_count fd (xs ++ ys) ≡ task_count fd xs + task_count fd ys
task_count-append fd [] ys = omega arith
task_count-append fd (x ∷ xs) ys = omega (arith, task_count-append fd xs ys)

-- An event is reported at the price of the interest.
pub report_all-claims :
    (cfg : Config) (fd : ℕ) (es : List Event) (calls : List EpollCall)
    → fd ≢ cfg.listen_fd
    → AreReported cfg calls es
    → one_if (is_enabled (interest fd (report_all cfg es calls))) + event_count fd es
      ≤ one_if (is_enabled (interest fd calls))
unfolding report_all
report_all-claims cfg fd [] calls differs h = omega arith
report_all-claims cfg fd (e ∷ es) calls differs (now, later) =
    let next = if e.fd == cfg.listen_fd then calls else reports e.fd ∷ calls in
    ground
      (arith, report_all-claims cfg fd es next differs later, is_enabled-report e.fd fd calls, now)

module _ (stray : TimerNode) (blank : ServerConn) (cfg : Config) (fd : ℕ) (never : cfg.timeout ≡ 0)
    (differs : fd ≢ cfg.listen_fd) where
  -- A new connection had no claim on it while its descriptor was not open.
  Adds-IsExclusive :
      (a : Accepted) (s u : WebServer)
      → IsSound stray cfg s
      → is_open a.fd s.users ≡ false
      → Adds stray cfg a s u
      → IsExclusive fd s
      → IsExclusive fd u
  Adds-IsExclusive a s u v shut new h =
      rw (new.epoll, new.ready, new.tasks)
        (ground (arith, new.fresh fd, h, shut, is_enabled-add a.fd fd s.epoll))

  deal-IsExclusive :
      (now : ℕ) (e : Event) (task : Task) (s : WebServer)
      → task_fd task ≡ e.fd
      → one_if (e.fd == fd) + claims fd s ≤ one_if (is_open fd s.users)
      → Yields (IsExclusive fd) (deal stray cfg now e.fd task s)
  unfolding deal extent_time
  deal-IsExclusive now e task s same h = elim (Option-cases (lookup e.fd s.users)) [
    | inl x ↦ rw (x, deal) aborts
    | inr (c, x) ↦
        let none_due : ltb 0 cfg.timeout ≡ false = ground (arith, never) in
        rw (x, deal, none_due)
          (yields (ground (arith, h, same, task_count-append fd s.tasks (task ∷ []))))
  ]

  -- An event is handled: its claim ends, or goes to a task.
  dispatch-IsExclusive :
      (now : ℕ) (accepts : List Accepted) (e : Event) (s : WebServer)
      → IsSound stray cfg s
      → IsServed stray cfg s e.fd
      → AreAccepted s.users s.clock accepts
      → one_if (e.fd == fd) + claims fd s ≤ one_if (is_open fd s.users)
      → Yields (IsExclusive fd) (dispatch stray blank cfg now accepts e s)
  unfolding dispatch
  dispatch-IsExclusive now accepts e s v served new h = elim (Bool-cases (e.fd == cfg.listen_fd)) [
    | inl listens ↦
        rw (listens, dispatch)
          (Ensures-Yields (
            Ensures-weaken
              (deal_listen-keeps stray blank cfg (IsExclusive fd) Adds-IsExclusive accepts s v
                (omega (arith, h)) new)
              λ u p. p.1))
    | inr client ↦ elim served [
      | inl same ↦ absurd (ground arith)
      | inr (k, _) ↦
          rw (client, dispatch)
            (Yields-if (has e.events epoll_gone)
              (Ensures-Yields
                (Ensures-weaken (close_client-Closes e.fd s v.users k) λ u c. closes u c))
              (Yields-if (has e.events epoll_in) (deal-IsExclusive now e (reads e.fd) s refl h) (
                Yields-if (has e.events epoll_out) (deal-IsExclusive now e (writes e.fd) s refl h)
                  (yields (omega (arith, h))))))
    ]
  ]
    where
      closes : (u : WebServer) → Closes (e.fd ∷ []) s u → IsExclusive fd u
      closes u c = rw (c.ready, c.tasks) (ground (arith, c.enabled fd, c.opened fd, h))

  pub handle_next-IsExclusive :
      (now : ℕ) (accepts : List Accepted) (s : WebServer)
      → IsSound stray cfg s
      → AreAccepted s.users s.clock accepts
      → IsExclusive fd s
      → Yields (IsExclusive fd) (handle_next stray blank cfg now accepts s)
  unfolding handle_next
  handle_next-IsExclusive now accepts s v new h = by_event s.ready refl
    where
      by_event :
          (es : List Event)
          → s.ready ≡ es
          → Yields (IsExclusive fd) (handle_next stray blank cfg now accepts s)
      by_event [] at = rw (at, handle_next) (yields h)
      by_event (e ∷ es) at =
          let (served, kept) = IsSound-rest stray blank cfg e es s v at in
          let count : event_count fd s.ready ≡ one_if (e.fd == fd) + event_count fd es =
            ap (event_count fd) at in
          rw (at, handle_next)
            (dispatch-IsExclusive now accepts e (record s { ready = es }) kept served new
              (omega (arith, h, count)))
