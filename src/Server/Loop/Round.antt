-- ===== src/Server/Loop/Round.antt =====
-- `CloseConn_`, `DealRead_`, `GetNextTick` and `Wait` under the invariant.
use video_server.Base.{
  ℕ, ◌+◌, ◌≤◌, ◌≡◌, refl, ◌∙◌, ◌⊎◌, inl, inr, true, List, [], ◌∷◌, ◌++◌, some, arith, All, All-mono,
  ltb, ◌==◌, if◌then◌else◌, Bool-cases, Option-cases,
}
use video_server.Base.Run.{Ensures, ensures, Ensures-bind, Ensures-weaken}
use video_server.Conn.{ServerConn}
use video_server.Timer.Heap.{TimerNode, HeapTimer}
use video_server.Timer.Heap.Order.{find}
use video_server.Server.Users.{lookup, is_known, is_open}
use video_server.Server.Interest.{
  EpollCall, interest, is_registered, is_enabled, is_registered-report, is_registered_of_enabled,
  reports,
}
use video_server.Server.Loop.{
  Config, Event, Task, WebServer, extent_time, deal, next_tick, report_all, wait_events,
  close_client,
}
use video_server.Server.Loop.Sound.{Closes, close_client-Closes, close_clients-Closes}
use video_server.Server.Loop.Timers.{
  HasTimer-mono, is_timed, adjust-HasTimer, get_next_tick-Expired,
}
use video_server.Server.Loop.Accept.{IsServed, IsSound}

-- What the kernel documents of `epoll_wait`: it reports the listening socket, and connections that are
-- enabled, which disables them.
abbrev pub AreReported : Config → List EpollCall → List Event → Type 0
AreReported cfg calls [] = Unit
AreReported cfg calls (e ∷ es) =
    ((e.fd ≡ cfg.listen_fd) ⊎ (is_enabled (interest e.fd calls) ≡ true))
    × AreReported cfg (if e.fd == cfg.listen_fd then calls else reports e.fd ∷ calls) es

module _ (stray : TimerNode) (cfg : Config) where
  -- A call of `CloseConn_` that is not from the timer.
  pub close_client-IsSound :
      (fd : ℕ) (s : WebServer)
      → IsSound stray cfg s
      → is_known fd s.users ≡ true
      → Ensures (IsSound stray cfg) (close_client fd s)
  close_client-IsSound fd s v k = Ensures-weaken (close_client-Closes fd s v.users k) λ u c.
      record {
        users = c.users;
        timer =
            rw (c.timer, c.clock)
              (HasTimer-mono stray cfg.timeout s.users u.users s.clock s.clock s.timer
                (λ j p. c.known j ∙ p) (omega arith) v.timer);
        timed = λ j e. rw c.timer (v.timed j (ground (arith, c.opened j, e)));
        pending = rw c.ready (All-mono s.ready (λ e. served u c (Event.fd e)) v.pending);
      }
    where
      served :
          (u : WebServer)
          → Closes (fd ∷ []) s u
          → (j : ℕ) → IsServed stray cfg s j
          → IsServed stray cfg u j
      served u c j (inl e) = inl e
      served u c j (inr (p, t)) = inr (c.known j ∙ p, rw c.timer t)

  -- The tasks have no part in the invariant.
  pub IsSound-tasks :
      (s : WebServer) (tasks : List Task)
      → IsSound stray cfg s
      → IsSound stray cfg (record s { tasks = tasks })
  IsSound-tasks s tasks v = record {
    users = record {
      named = v.users.named;
      counted = v.users.counted;
      few = v.users.few;
      watched = v.users.watched;
    };
    timer = v.timer;
    timed = v.timed;
    pending = v.pending;
  }

  -- `ExtentTime_`
  extent_time-IsSound :
      (now : ℕ) (c : ServerConn) (s : WebServer)
      → IsSound stray cfg s
      → is_timed stray cfg.timeout s.timer c.fd ≡ true
      → s.clock ≤ now
      → Ensures (IsSound stray cfg) (extent_time stray cfg now c s)
  unfolding extent_time
  extent_time-IsSound now c s v t later = elim (Bool-cases (ltb 0 cfg.timeout)) [
    | inr never ↦ rw (never, extent_time) (ensures v)
    | inl timeouts ↦
        rw (timeouts, extent_time)
          (Ensures-bind
            (adjust-HasTimer stray cfg.timeout now s.clock c.fd s.users s.timer v.timer later
              timeouts t)
            λ u p. ensures (record {
              users = record {
                named = v.users.named;
                counted = v.users.counted;
                few = v.users.few;
                watched = v.users.watched;
              };
              timer = p.0;
              timed = λ j e. p.1 j ∙ v.timed j e;
              pending = All-mono s.ready (λ e. served u (Event.fd e) p.1) v.pending;
            }))
  ]
    where
      served :
          (u : HeapTimer) (j : ℕ)
          → ((j : ℕ) → is_timed stray cfg.timeout u j ≡ is_timed stray cfg.timeout s.timer j)
          → IsServed stray cfg s j
          → (j ≡ cfg.listen_fd)
            ⊎ ((is_known j s.users ≡ true) × (is_timed stray cfg.timeout u j ≡ true))
      served u j same (inl e) = inl e
      served u j same (inr (k, p)) = inr (k, same j ∙ p)

  -- `DealRead_` and `DealWrite_`
  pub deal-IsSound :
      (now fd : ℕ) (task : Task) (s : WebServer)
      → IsSound stray cfg s
      → is_known fd s.users ≡ true
      → is_timed stray cfg.timeout s.timer fd ≡ true
      → s.clock ≤ now
      → Ensures (IsSound stray cfg) (deal stray cfg now fd task s)
  unfolding deal
  deal-IsSound now fd task s v k t later = elim (Option-cases (lookup fd s.users)) [
    | inl e ↦ absurd (ground (arith, e, k))
    | inr (c, e) ↦
        rw (e, deal)
          (Ensures-bind (extent_time-IsSound now c s v (rw (v.users.named fd c e) t) later)
            λ u p. ensures (IsSound-tasks u (u.tasks ++ task ∷ []) p))
  ]

  -- No timeout is due at this time, if there are any.
  abbrev pub AreWaiting : ℕ → HeapTimer → Type 0
  AreWaiting now t =
      (cfg.timeout ≡ 0)
      ⊎ ((fd : ℕ) (node : TimerNode)
          → find stray t fd ≡ some node
          → now + 1000000 ≤ TimerNode.expires node)

  -- `GetNextTick` at the head of the loop, where all events of the last round are handled.
  pub next_tick-IsSound :
      (readings : ℕ → ℕ) (s : WebServer)
      → IsSound stray cfg s
      → s.ready ≡ []
      → s.clock ≤ readings 0
      → ((i : ℕ) → readings i ≤ readings (i + 1))
      → Ensures
          (λ u. IsSound stray cfg u × (u.ready ≡ []) × AreWaiting (readings 0) u.timer)
          (next_tick stray cfg readings s)
  unfolding next_tick
  next_tick-IsSound readings s v empty later mono = elim (Bool-cases (ltb 0 cfg.timeout)) [
    | inr never ↦ rw (never, next_tick) (ensures (v, empty, inl (ground arith)))
    | inl timeouts ↦
        rw (timeouts, next_tick)
          (Ensures-bind
            (get_next_tick-Expired stray cfg.timeout readings s.clock s.users s.timer v.timer later
              mono)
            λ r x.
              Ensures-weaken
                (close_clients-Closes r.0 (record s { timer = r.2; clock = readings 0 })
                  (record {
                    named = v.users.named;
                    counted = v.users.counted;
                    few = v.users.few;
                    watched = v.users.watched;
                  })
                  x.known)
                λ u c. (
                  record {
                    users = c.users;
                    timer =
                        rw (c.timer, c.clock)
                          (HasTimer-mono stray cfg.timeout s.users u.users (readings 0) (readings 0)
                            r.2 (λ j p. c.known j ∙ p) (omega arith) x.timer);
                    timed = λ j e. rw c.timer (ground (arith, c.opened j, e, v.timed j, x.rest j));
                    pending = rw (c.ready ∙ empty) tt;
                  },
                  c.ready ∙ empty,
                  inr (rw c.timer x.waiting),
                ))
  ]

  is_registered-report_all :
      (es : List Event) (calls : List EpollCall) (fd : ℕ)
      → is_registered (interest fd (report_all cfg es calls)) ≡ is_registered (interest fd calls)
  unfolding report_all
  is_registered-report_all [] calls fd = refl
  is_registered-report_all (e ∷ es) calls fd =
      let next = if e.fd == cfg.listen_fd then calls else reports e.fd ∷ calls in
      ground (arith, is_registered-report_all es next fd, is_registered-report e.fd fd calls)

  served_of_reported :
      (es : List Event) (calls : List EpollCall) (s : WebServer)
      → IsSound stray cfg s
      → ((fd : ℕ) → is_registered (interest fd calls) ≡ is_open fd s.users)
      → AreReported cfg calls es
      → All (λ e. IsServed stray cfg s (Event.fd e)) es
  served_of_reported [] calls s v same reported = tt
  served_of_reported (e ∷ es) calls s v same (now, later) = (
    served now,
    served_of_reported es (if e.fd == cfg.listen_fd then calls else reports e.fd ∷ calls) s v
        (λ fd. ground (arith, same fd, is_registered-report e.fd fd calls)) later,
  )
    where
      served :
          (e.fd ≡ cfg.listen_fd) ⊎ (is_enabled (interest e.fd calls) ≡ true)
          → IsServed stray cfg s e.fd
      served (inl p) = inl p
      served (inr p) =
          let there = is_registered_of_enabled (interest e.fd calls) p in
          inr (ground (arith, same e.fd, there), v.timed e.fd (ground (arith, same e.fd, there)))

  -- What is reported can be handled.
  pub wait_events-IsSound :
      (es : List Event) (s : WebServer)
      → IsSound stray cfg s
      → AreReported cfg s.epoll es
      → IsSound stray cfg (wait_events cfg es s)
  unfolding wait_events
  wait_events-IsSound es s v reported = record {
    users = record {
      named = v.users.named;
      counted = v.users.counted;
      few = v.users.few;
      watched = λ fd. is_registered-report_all es s.epoll fd ∙ v.users.watched fd;
    };
    timer = v.timer;
    timed = v.timed;
    pending = served_of_reported es s.epoll s v v.users.watched reported;
  }
