-- ===== src/Server/Loop/Accept.antt =====
-- The invariant of the server, and `DealListen_` under it.
use video_server.Base.{
  ℕ, ◌^◌, ◌≤◌, ◌<◌, ◌≡◌, refl, ◌≢◌, ◌⊎◌, inl, inr, true, false, ◌||◌, List, [], ◌∷◌, some, arith,
  All, All-mono, length, ltb, leb, ◌==◌, if◌then◌else◌, Bool-cases,
}
use video_server.Base.Run.{Ensures, ensures, Ensures-bind, Ensures-weaken, Ensures-either}
use video_server.Conn.{ServerConn, init_conn-Ensures}
use video_server.Timer.Heap.{TimerNode, HeapTimer}
use video_server.Server.Users.{Users, lookup, insert, lookup-insert, is_known, is_open, is_live}
use video_server.Server.Interest.{add_fd, is_registered-add}
use video_server.Server.Loop.{
  Config, Event, Accepted, WebServer, max_fd, user_at, add_client, deal_listen, send_error,
}
use video_server.Server.Loop.Sound.{HasUsers, HasUsers-insert}
use video_server.Server.Loop.Timers.{HasTimer, HasTimer-mono, is_timed, add-HasTimer}

-- What the kernel documents of `accept`: each descriptor is below 2^31 and not that of an open
-- connection, and the text of an address is short; and the clock does not go back.
abbrev pub AreAccepted : Users → ℕ → List Accepted → Type 0
AreAccepted users clock [] = Unit
AreAccepted users clock (a ∷ rest) =
    (is_open a.fd users ≡ false)
    × (a.fd < 2 ^ 31)
    × (length a.ip ≤ 20)
    × (clock ≤ a.now)
    × All (λ b. Accepted.fd b ≢ a.fd) rest
    × AreAccepted users a.now rest

AreAccepted-fresh :
    (users users' : Users) (fd clock : ℕ) (rest : List Accepted)
    → ((j : ℕ) → is_open j users' ≡ (fd == j || is_open j users))
    → All (λ b. Accepted.fd b ≢ fd) rest
    → AreAccepted users clock rest
    → AreAccepted users' clock rest
AreAccepted-fresh users users' fd clock [] same differ h = tt
AreAccepted-fresh users users' fd clock (b ∷ rest) same differ
      (shut, small, short, later, others, next) =
    (
      ground (arith, same b.fd, shut, differ.0),
      small,
      short,
      later,
      others,
      AreAccepted-fresh users users' fd b.now rest same differ.1 next,
    )

module _ (stray : TimerNode) (cfg : Config) where
  -- An event that the loop can handle: of the listening socket, or of a known connection that has a
  -- timeout if there are any.
  abbrev pub IsServed : WebServer → ℕ → Type 0
  IsServed s fd =
      (fd ≡ cfg.listen_fd)
      ⊎ ((is_known fd s.users ≡ true) × (is_timed stray cfg.timeout s.timer fd ≡ true))

  -- The invariant of the server between two events.
  pub record IsSound (s : WebServer) : Type 0 where
    pub users : HasUsers s
    pub timer : HasTimer stray cfg.timeout s.users s.clock s.timer
    pub timed : (fd : ℕ) → is_open fd s.users ≡ true → is_timed stray cfg.timeout s.timer fd ≡ true
    pub pending : All (λ e. IsServed s (Event.fd e)) s.ready

  -- `u` is `s` with a new connection.
  pub record Adds (a : Accepted) (s u : WebServer) : Type 0 where
    pub sound : IsSound u
    pub fresh : (fd : ℕ) → is_open fd u.users ≡ (a.fd == fd || is_open fd s.users)
    pub clock : u.clock ≡ a.now
    pub epoll : u.epoll ≡ add_fd a.fd ∷ s.epoll
    pub ready : u.ready ≡ s.ready
    pub tasks : u.tasks ≡ s.tasks

module _ (stray : TimerNode) (blank : ServerConn) (cfg : Config) where
  pub add_client-Adds :
      (a : Accepted) (s : WebServer)
      → IsSound stray cfg s
      → (a.fd == 0) ≡ false
      → s.user_count < max_fd
      → is_open a.fd s.users ≡ false
      → a.fd < 2 ^ 31
      → length a.ip ≤ 20
      → s.clock ≤ a.now
      → Ensures (Adds stray cfg a s) (add_client stray blank cfg a s)
  unfolding add_client
  add_client-Adds a s v some_fd room shut small short later =
      let positive : ltb 0 a.fd ≡ true = ground arith in
      rw positive (
        Ensures-bind (init_conn-Ensures a.fd a.ip (user_at blank a.fd s.users) s.user_count short)
          λ r p.
            let now_known : (j : ℕ)
                → is_known j s.users ≡ true
                → is_known j (insert a.fd r.0 s.users) ≡ true =
              λ j k. rw (lookup-insert a.fd j r.0 s.users) (ground (arith, k)) in
            let timers =
              HasTimer-mono stray cfg.timeout s.users (insert a.fd r.0 s.users) s.clock a.now
                s.timer now_known later v.timer in
            Ensures-bind
              (add-HasTimer stray cfg.timeout a.now a.fd (insert a.fd r.0 s.users) s.timer timers
                small (rw (lookup-insert a.fd a.fd r.0 s.users) (ground arith)))
              λ t q. ensures (record {
                sound = record {
                  users =
                      HasUsers-insert a.fd r.0 s _ v.users refl p.0 (ground (arith, p.1, p.2, shut))
                        (omega (arith, p.2))
                        (λ j. ground (arith, p.1, is_registered-add a.fd j s.epoll));
                  timer = q.0;
                  timed = λ j e. timed r.0 t j q.1 (rw (lookup-insert a.fd j r.0 s.users) at e);
                  pending = All-mono s.ready (λ e. served r.0 t (Event.fd e) q.1) v.pending;
                };
                fresh = λ j. rw (lookup-insert a.fd j r.0 s.users) (ground (arith, p.1));
                clock = refl;
                epoll = refl;
                ready = refl;
                tasks = refl;
              }))
    where
      timed :
          (c : ServerConn) (t : HeapTimer) (j : ℕ)
          → ((j : ℕ)
              → is_timed stray cfg.timeout t j
                ≡ (a.fd == j || is_timed stray cfg.timeout s.timer j))
          → is_live (if a.fd == j then some c else lookup j s.users) ≡ true
          → is_timed stray cfg.timeout t j ≡ true
      timed c t j q e = ground (arith, q j, e, v.timed j)

      served :
          (c : ServerConn) (t : HeapTimer) (j : ℕ)
          → ((j : ℕ)
              → is_timed stray cfg.timeout t j
                ≡ (a.fd == j || is_timed stray cfg.timeout s.timer j))
          → IsServed stray cfg s j
          → (j ≡ cfg.listen_fd)
            ⊎ ((is_known j (insert a.fd c s.users) ≡ true)
                × (is_timed stray cfg.timeout t j ≡ true))
      served c t j q (inl e) = inl e
      served c t j q (inr (k, i)) =
          inr (rw (lookup-insert a.fd j c s.users) (ground (arith, k)), ground (arith, q j, i))

  -- `DealListen_` keeps the server sound, and with it what every new connection keeps; no assertion
  -- in it fails.
  pub deal_listen-keeps :
      (P : WebServer → Type 0)
      → ((a : Accepted) (s u : WebServer)
          → IsSound stray cfg s
          → is_open a.fd s.users ≡ false
          → Adds stray cfg a s u
          → P s
          → P u)
      → (accepts : List Accepted) (s : WebServer) → IsSound stray cfg s
      → P s
      → AreAccepted s.users s.clock accepts
      → Ensures (λ u. IsSound stray cfg u × P u) (deal_listen stray blank cfg accepts s)
  unfolding deal_listen send_error
  deal_listen-keeps P keep [] s v p h = ensures (v, p)
  deal_listen-keeps P keep (a ∷ rest) s v p (shut, small, short, later, others, next) =
      elim (Bool-cases (a.fd == 0)) [
        | inl none_left ↦ rw none_left (ensures (v, p))
        | inr some_fd ↦ elim (Bool-cases (leb max_fd s.user_count)) [
          | inl full ↦
              let positive : ltb 0 a.fd ≡ true = ground arith in
              rw (some_fd, full, positive) (ensures (v, p))
          | inr room ↦
              rw (some_fd, room)
                (Ensures-bind (add_client-Adds a s v some_fd (ground arith) shut small short later)
                  λ u new.
                    let fresh =
                      AreAccepted-fresh s.users u.users a.fd a.now rest new.fresh others next in
                    let kept = keep a s u v shut new p in
                    Ensures-either cfg.listen_et
                      (deal_listen-keeps P keep rest u new.sound kept (rw new.clock fresh))
                      (ensures (new.sound, kept)))
        ]
      ]

  pub deal_listen-IsSound :
      (accepts : List Accepted) (s : WebServer)
      → IsSound stray cfg s
      → AreAccepted s.users s.clock accepts
      → Ensures (IsSound stray cfg) (deal_listen stray blank cfg accepts s)
  deal_listen-IsSound accepts s v h =
      Ensures-weaken (deal_listen-keeps (λ u. Unit {0}) (λ a s u v shut new p. tt) accepts s v tt h)
        λ u p. p.0
