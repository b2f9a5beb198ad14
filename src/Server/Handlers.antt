-- ===== src/Server/Handlers.antt =====
-- `OnWrite_`: what it sends, and whether a connection has an event armed afterwards.
use video_server.Base.{ℕ, ◌<◌, ◌≡◌, ◌⊎◌, false, length, ◌==◌}
use video_server.Base.Run.{Run, ok}
use video_server.Buffer.{Written}
use video_server.Conn.{ServerConn}
use video_server.Conn.Io.{Writing}
use video_server.Conn.Io.Ready.{pending}
use video_server.Conn.Process.{World}
use video_server.Server.{for_writing, eagain, Served, Armed, nothing, on_process}

module _ (world : World) where
  open world use {sql}

  -- What `OnWrite_` arms and keeps for a write that is not complete.
  abbrev pub waiting : Armed → Writing → ℕ → sql.Database → Served world
  waiting armed w users db = record {
    armed = armed;
    conn = w.conn;
    user_count = users;
    database = db;
    started = false;
  }

  -- The write has sent all and the next request is looked at, it waits for the socket, or it has
  -- failed otherwise, and nothing is armed.
  abbrev pub Turns : ServerConn → ℕ → sql.Database → Writing → Run (Served world) → Type 0
  Turns c users db w called =
      ((length (pending w.conn) ≡ 0) × (called ≡ on_process world w.conn users db))
      ⊎ ((0 < length (pending w.conn))
          × ((w.result ≡ Written.failed eagain) × (called ≡ ok (waiting for_writing w users db))))
      ⊎ ((0 < length (pending w.conn))
          × ((e : ℕ) × ((w.result ≡ Written.failed e)
                × (((e == eagain) ≡ false) × (called ≡ ok (waiting nothing w users db))))))
