-- ===== src/Server/Loop.antt =====
-- code/server/webserver.cpp: the loop of `Start`, and what it calls for the events of `epoll`.
-- The clock, `accept` and `epoll_wait` are parameters: their results are arguments of the calls.
-- `stray` is the node that the timer reads past its vector, and `blank` what the constructor of a
-- connection leaves in the fields that it does not set. `clock` is a time that the clock has passed.
pub mod Sound
pub mod Timers
pub mod Accept
pub mod Round
pub mod Dispatch
use Prim.Native.Nat.{bit_and}
use video_server.Base.{
  ℕ, Bool, true, false, not, List, [], ◌∷◌, ◌++◌, Option, none, some, ltb, leb, ◌==◌, if◌then◌else◌,
}
use video_server.Base.Run.{Run, ok, abort, ◌>>=◌, ◌>>◌, check}
use video_server.Conn.{ServerConn, init_conn, close_conn}
use video_server.Timer.Heap.{TimerNode, HeapTimer, add, adjust, get_next_tick}
use video_server.Server.Users.{Users, lookup, insert}
use video_server.Server.Interest.{EpollCall, add_fd, del_fd, reports}

-- What the thread pool is given: `OnRead_` or `OnWrite_` of a connection.
pub data Task : Type 0 where
  reads writes : ℕ → Task

-- An `epoll_event`
pub record Event : Type 0 where
  pub fd : ℕ
  pub events : ℕ

-- What a call of `accept` returns, with the time at which the client is added.
pub record Accepted : Type 0 where
  pub fd : ℕ
  pub ip : List ℕ
  pub now : ℕ

-- `timeout` is 0 for a `timeoutMS_` that is not positive.
pub record Config : Type 0 where
  pub listen_fd : ℕ
  pub listen_et : Bool
  pub timeout : ℕ

-- `ready` holds the events of the last `Wait` that are still to be handled.
pub record WebServer : Type 0 where
  pub users : Users
  pub user_count : ℕ
  pub timer : HeapTimer
  pub epoll : List EpollCall
  pub tasks : List Task
  pub ready : List Event
  pub clock : ℕ

-- `MAX_FD`
abbrev pub max_fd : ℕ
max_fd = 65536

-- `EPOLLIN`, `EPOLLOUT`, and `EPOLLRDHUP | EPOLLHUP | EPOLLERR`
abbrev pub epoll_in : ℕ
epoll_in = 0x1

abbrev pub epoll_out : ℕ
epoll_out = 0x4

abbrev pub epoll_gone : ℕ
epoll_gone = 0x2018

-- `events & mask`
abbrev pub has : ℕ → ℕ → Bool
has events mask = not (bit_and events mask == 0)

-- `CloseConn_(&users_[fd])`
unfoldable pub close_client : ℕ → WebServer → Run WebServer
close_client fd s = elim (lookup fd s.users) [
  | none ↦ abort
  | some c ↦
      let (c', (left, _)) = close_conn c s.user_count in
      ok (record s {
        users = insert fd c' s.users;
        user_count = left;
        epoll = del_fd c.fd ∷ s.epoll;
      })
]

-- The callbacks of the timer, in the order in which they run.
unfoldable pub close_clients : List ℕ → WebServer → Run WebServer
close_clients [] s = ok s
close_clients (fd ∷ fds) s = close_client fd s >>= close_clients fds

-- `SendError_`: it keeps nothing of the descriptor.
unfoldable pub send_error : ℕ → WebServer → Run WebServer
send_error fd s = check (ltb 0 fd) >> ok s

-- `users_[fd]`, where a missing key adds a new connection.
abbrev pub user_at : ServerConn → ℕ → Users → ServerConn
user_at blank fd users = elim (lookup fd users) [
  | none ↦ record blank { is_close = true }
  | some c ↦ c
]

-- The connections' events of a `Wait`, each reported once.
unfoldable pub report_all : Config → List Event → List EpollCall → List EpollCall
report_all cfg [] calls = calls
report_all cfg (e ∷ es) calls =
    report_all cfg es (if e.fd == cfg.listen_fd then calls else reports e.fd ∷ calls)

-- The head of the `while`: the timeouts, and then the events that `Wait` returns.
unfoldable pub wait_events : Config → List Event → WebServer → WebServer
wait_events cfg es s = record s { ready = es; epoll = report_all cfg es s.epoll }

module _ (stray : TimerNode) (cfg : Config) where
  -- `ExtentTime_`
  unfoldable pub extent_time : ℕ → ServerConn → WebServer → Run WebServer
  extent_time now c s =
      if ltb 0 cfg.timeout
      then (adjust stray now c.fd cfg.timeout s.timer >>= λ t.
          ok (record s { timer = t; clock = now }))
      else ok s

  -- `DealRead_` and `DealWrite_`, behind the assertion that the descriptor is known.
  unfoldable pub deal : ℕ → ℕ → Task → WebServer → Run WebServer
  deal now fd task s = elim (lookup fd s.users) [
    | none ↦ abort
    | some c ↦ extent_time now c s >>= λ s'. ok (record s' { tasks = s'.tasks ++ task ∷ [] })
  ]

  -- `GetNextTick`, with the callbacks that it runs; `readings` are those of the clock.
  unfoldable pub next_tick : (ℕ → ℕ) → WebServer → Run WebServer
  next_tick readings s =
      let fire = get_next_tick stray readings 0 s.timer >>= λ (fds, _, t).
      close_clients fds (record s { timer = t; clock = readings 0 }) in
      if ltb 0 cfg.timeout then fire else ok s

module _ (stray : TimerNode) (blank : ServerConn) (cfg : Config) where
  -- `AddClient_`
  unfoldable pub add_client : Accepted → WebServer → Run WebServer
  add_client a s = do
    check (ltb 0 a.fd)
    (c, count) ← init_conn a.fd a.ip (user_at blank a.fd s.users) s.user_count
    timer ← if ltb 0 cfg.timeout then add stray a.now a.fd cfg.timeout a.fd s.timer else ok s.timer
    ok (record s {
      users = insert a.fd c s.users;
      user_count = count;
      timer = timer;
      epoll = add_fd a.fd ∷ s.epoll;
      clock = a.now;
    })

  -- `DealListen_`, with what the calls of `accept` return before the one that fails.
  unfoldable pub deal_listen : List Accepted → WebServer → Run WebServer
  deal_listen [] s = ok s
  deal_listen (a ∷ rest) s =
      let accepts = add_client a s >>= λ s'. (elim cfg.listen_et [
        | true ↦ deal_listen rest s'
        | false ↦ ok s'
      ]) in
      if a.fd == 0 then ok s else if leb max_fd s.user_count then send_error a.fd s else accepts

  -- The body of the `for`: what is done for an event.
  unfoldable pub dispatch : ℕ → List Accepted → Event → WebServer → Run WebServer
  dispatch now accepts e s =
      if e.fd == cfg.listen_fd
      then deal_listen accepts s
      else if has e.events epoll_gone
      then close_client e.fd s
      else if has e.events epoll_in
      then deal stray cfg now e.fd (reads e.fd) s
      else if has e.events epoll_out
      then deal stray cfg now e.fd (writes e.fd) s
      else ok s

  -- A round of the `for`: the next event.
  unfoldable pub handle_next : ℕ → List Accepted → WebServer → Run WebServer
  handle_next now accepts s = elim s.ready [
    | [] ↦ ok s
    | e ∷ es ↦ dispatch now accepts e (record s { ready = es })
  ]
