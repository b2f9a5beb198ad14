-- ===== src/Conn/Process/Refused.antt =====
-- A request that `parse` refuses stays in the read buffer.
use video_server.Base.{◌≡◌, false, some, take, ◌==◌}
use video_server.Base.Run.{ok}
use video_server.Base.Scan.{line_end, find_word}
use video_server.Base.Text.{codes, has_byte}
use video_server.Buffer.{Buffer, readable_bytes}
use video_server.Buffer.Contents.{contents, IsValid}
use video_server.Conn.Process.{World, protocol_words}
use video_server.Http.Request.{initial}
use video_server.Http.Request.Parse.{Parsed, parse}

module _ (world : World) where
  open world use {files, sql}

  -- What the buffer holds names HTTP in its first line, and is refused.
  pub record IsStuck (b : Buffer) (db : sql.Database) : Type 0 where
    pub valid : IsValid b
    pub plain : has_byte b'%' (contents b) ≡ false
    pub some_bytes : (readable_bytes b == 0) ≡ false
    pub names_http :
        find_word protocol_words (take (line_end (contents b)) (contents b)) ≡ some (codes "HTTP")
    pub refused : (p : Parsed sql) × ((parse sql initial b db ≡ ok p) × (p.result ≡ false))
