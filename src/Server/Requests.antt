-- ===== src/Server/Requests.antt =====
-- `OnRead_` of an HTTP request, from the pieces in which it comes to the reply that is ready to be sent.
use video_server.Base.{ℕ, ◌≡◌, List}
use video_server.Base.Run.{ok}
use video_server.Buffer.{Buffer}
use video_server.Buffer.Refine.{Holds}
use video_server.Conn.{ServerConn}
use video_server.Conn.Io.Ready.{IsReady, pending}
use video_server.Conn.Process.{World}
use video_server.Conn.Process.Http.{reply_to}
use video_server.Http.Request.{initial}
use video_server.Http.Request.Parse.{Parsed, parse}
use video_server.Server.{for_writing, Served}

module _ (world : World) where
  open world use {files, sql}

  -- Writing is armed, and what is to be sent is the reply to what `parse` makes of a buffer with the
  -- text.
  pub record IsTurned (text : List ℕ) (c : ServerConn) (users : ℕ) (db : sql.Database)
      (s : Served world) : Type 0 where
    pub armed : s.armed ≡ for_writing
    pub counted : s.user_count ≡ users
    pub input : Buffer
    pub whole : Holds text input
    pub parsed : Parsed sql
    pub parses : parse sql initial input db ≡ ok parsed
    pub ready : IsReady s.conn
    pub sends : pending s.conn ≡ reply_to world c parsed
    pub database : s.database ≡ parsed.database
