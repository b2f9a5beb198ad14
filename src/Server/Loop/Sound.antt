-- ===== src/Server/Loop/Sound.antt =====
-- What holds between the users, their count and the interest list, and `CloseConn_` under it.
use video_server.Base.{
  ℕ, ◌+◌, ◌≤◌, ◌≡◌, refl, ◌∙◌, inl, inr, true, not, ◌&&◌, List, [], ◌∷◌, some, arith, All, All-mono,
  contains, ◌==◌, if◌then◌else◌, Bool-cases, Option-cases,
}
use video_server.Base.Run.{Ensures, ensures, Ensures-bind, Ensures-weaken}
use video_server.Conn.{ServerConn, close_conn, close_conn_lem}
use video_server.Server.Users.{
  lookup, insert, lookup-insert, is_known, is_open, one_if, open_count, open_count-insert,
}
use video_server.Server.Interest.{
  interest, is_registered, is_registered-del, is_enabled, is_enabled-del,
}
use video_server.Server.Loop.{WebServer, max_fd, close_client, close_clients}

-- Every connection stands under its descriptor, `userCount` counts the open ones, which are no more
-- than `MAX_FD`, and those are the ones that `epoll` knows.
pub record HasUsers (s : WebServer) : Type 0 where
  pub named : (fd : ℕ) (c : ServerConn) → lookup fd s.users ≡ some c → c.fd ≡ fd
  pub counted : s.user_count ≡ open_count s.users
  pub few : s.user_count ≤ max_fd
  pub watched : (fd : ℕ) → is_registered (interest fd s.epoll) ≡ is_open fd s.users

-- `u` is `s` with the connections of `fds` closed.
pub record Closes (fds : List ℕ) (s u : WebServer) : Type 0 where
  pub users : HasUsers u
  pub opened : (fd : ℕ) → is_open fd u.users ≡ (is_open fd s.users && not (contains fd fds))
  pub known : (fd : ℕ) → is_known fd u.users ≡ is_known fd s.users
  pub enabled :
      (fd : ℕ)
      → is_enabled (interest fd u.epoll)
        ≡ (is_enabled (interest fd s.epoll) && not (contains fd fds))
  pub timer : u.timer ≡ s.timer
  pub clock : u.clock ≡ s.clock
  pub ready : u.ready ≡ s.ready
  pub tasks : u.tasks ≡ s.tasks

-- A connection is put under its descriptor, and the count and the interest list go with it.
pub HasUsers-insert :
    (fd : ℕ) (c : ServerConn) (s u : WebServer)
    → HasUsers s
    → u.users ≡ insert fd c s.users
    → c.fd ≡ fd
    → u.user_count + one_if (is_open fd s.users) ≡ s.user_count + one_if (not c.is_close)
    → u.user_count ≤ max_fd
    → ((j : ℕ)
        → is_registered (interest j u.epoll)
          ≡ (if fd == j then not c.is_close else is_registered (interest j s.epoll)))
    → HasUsers u
HasUsers-insert fd c s u h e own count few list = record {
  named = λ j d p. named j d (rw (e, lookup-insert fd j c s.users) at p);
  counted = rw e (omega (arith, count, h.counted, open_count-insert fd c s.users));
  few = few;
  watched = λ j. rw (e, list j, lookup-insert fd j c s.users) (ground (arith, h.watched j));
}
  where
    named :
        (j : ℕ) (d : ServerConn)
        → (if fd == j then some c else lookup j s.users) ≡ some d
        → d.fd ≡ j
    named j d p = elim (Bool-cases (fd == j)) [
      | inl same ↦ ground (arith, p, same, own)
      | inr other ↦ h.named j d (rw other at p)
    ]

pub close_client-Closes :
    (fd : ℕ) (s : WebServer)
    → HasUsers s
    → is_known fd s.users ≡ true
    → Ensures (Closes (fd ∷ []) s) (close_client fd s)
unfolding close_client
close_client-Closes fd s h k = elim (Option-cases (lookup fd s.users)) [
  | inl e ↦ absurd (ground (arith, e, k))
  | inr (c, e) ↦
      let (own, shut, left) = close_conn_lem c s.user_count in
      let was : is_open fd s.users ≡ not c.is_close = rw e refl in
      let some_open = open_count-insert fd (close_conn c s.user_count).0 s.users in
      let name = h.named fd c e in
      rw (e, close_client)
        (ensures (record {
          users =
              HasUsers-insert fd (close_conn c s.user_count).0 s _ h refl (own ∙ name)
                (ground (arith, shut, left, was, some_open, h.counted))
                (ground (arith, left, h.few))
                (λ j. ground (arith, name, shut, is_registered-del c.fd j s.epoll));
          opened = λ j.
              rw (lookup-insert fd j (close_conn c s.user_count).0 s.users) (ground (arith, shut));
          known = λ j.
              rw (lookup-insert fd j (close_conn c s.user_count).0 s.users) (ground (arith, e));
          enabled = λ j. ground (arith, name, is_enabled-del c.fd j s.epoll);
          timer = refl;
          clock = refl;
          ready = refl;
          tasks = refl;
        }))
]

pub close_clients-Closes :
    (fds : List ℕ) (s : WebServer)
    → HasUsers s
    → All (λ fd. is_known fd s.users ≡ true) fds
    → Ensures (Closes fds s) (close_clients fds s)
unfolding close_clients
close_clients-Closes [] s h k = ensures (record {
  users = h;
  opened = λ j. ground arith;
  known = λ j. refl;
  enabled = λ j. ground arith;
  timer = refl;
  clock = refl;
  ready = refl;
  tasks = refl;
})
close_clients-Closes (fd ∷ fds) s h k = Ensures-bind (close_client-Closes fd s h k.0) λ t p.
    Ensures-weaken (close_clients-Closes fds t p.users (All-mono fds (λ j e. p.known j ∙ e) k.1))
      λ u q. record {
        users = q.users;
        opened = λ j. ground (arith, q.opened j, p.opened j);
        known = λ j. q.known j ∙ p.known j;
        enabled = λ j. ground (arith, q.enabled j, p.enabled j);
        timer = q.timer ∙ p.timer;
        clock = q.clock ∙ p.clock;
        ready = q.ready ∙ p.ready;
        tasks = q.tasks ∙ p.tasks;
      }
