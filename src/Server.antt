-- ===== src/Server.antt =====
-- code/server/webserver.cpp: the modes of the events, and what the workers do for a connection.
-- `epoll` is a parameter that the code only calls: what is kept is the event that `ModFd` arms last.
-- Every event is armed once (`EPOLLONESHOT`): a handler that arms none leaves the connection without one.
pub mod Handlers
pub mod Requests
pub mod Users
pub mod Interest
pub mod Loop
pub mod Kept
pub mod Steps
pub mod Setup
mod Tests
use video_server.Base.{
  ℕ, zero, suc, Bool, true, false, not, ◌&&◌, List, Option, none, some, ltb, length, ◌==◌,
  if◌then◌else◌,
}
use video_server.Base.Int.{ℤ, pos, negsuc}
use video_server.Base.Run.{Run, ok, ◌>>=◌}
use video_server.Buffer.{Readv, received, Written, wrote}
use video_server.Conn.{ServerConn, close_conn, to_write_bytes}
use video_server.Conn.Io.{is_stop, read, write}
use video_server.Conn.Process.{World, process}

-- `InitEventMode_`: whether the listening socket and the connections are edge-triggered.
pub init_event_mode : ℤ → Bool × Bool
init_event_mode (pos n) =
    if n == 0
    then (false, false)
    else if n == 1
    then (false, true)
    else if n == 2
    then (true, false)
    else (true, true)
init_event_mode (negsuc n) = (true, true)

-- What a handler arms with `ModFd`, or that it closes the connection.
pub data Armed : Type 0 where
  for_reading for_writing nothing closed : Armed

-- `EAGAIN`
abbrev pub eagain : ℕ
eagain = 11

-- `writeErrno == EAGAIN` after `ret < 0`
abbrev pub must_wait : Written → Bool
must_wait (wrote n) = false
must_wait (Written.failed e) = e == eagain

-- `ret <= 0 && readErrno != EAGAIN`; the error number is 0 when the other end has closed.
abbrev pub is_broken : Readv → Bool
is_broken (received got) = length got == 0
is_broken (Readv.failed e) = not (e == eagain)

abbrev pub is_zero_int : ℤ → Bool
is_zero_int (pos n) = n == 0
is_zero_int (negsuc n) = false

module _ (world : World) where
  open world use {sql}

  -- A connection, the users it counts, the database, and whether a stream was started.
  pub record Served : Type 0 where
    pub armed : Armed
    pub conn : ServerConn
    pub user_count : ℕ
    pub database : sql.Database
    pub started : Bool

  -- `OnProcess`
  pub on_process : ServerConn → ℕ → sql.Database → Run Served
  on_process c users db = process world c db >>= λ (more, (c', (db', started))). ok (record {
    armed = if more then for_writing else for_reading;
    conn = c';
    user_count = users;
    database = db';
    started = started;
  })

  -- `OnRead_`, with what the calls of `readv` deliver.
  pub on_read : Bool → List Readv → ServerConn → ℕ → sql.Database → Run Served
  on_read is_et rs c users db = read is_et rs c >>= λ (last, c').
      let (c'', (left, _)) = close_conn c' users in
      let gone = ok (record {
        armed = closed;
        conn = c'';
        user_count = left;
        database = db;
        started = false;
      }) in
      if is_broken last then gone else on_process c' users db

  -- `OnWrite_`: after an incomplete write without `EAGAIN` it does nothing.
  pub on_write : (ℕ → List ℕ → Written) → Bool → ServerConn → ℕ → sql.Database → Run Served
  on_write kernel is_et c users db = write kernel is_et c >>= λ w.
      let rest = ok (record {
        armed = if must_wait w.result then for_writing else nothing;
        conn = w.conn;
        user_count = users;
        database = db;
        started = false;
      }) in
      if is_zero_int (to_write_bytes w.conn) then on_process w.conn users db else rest
