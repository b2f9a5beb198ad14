-- ===== src/Conn/Process.antt =====
-- `ServerConn::process`: the requests in the read buffer, and what `write` is to send for them.
-- The file system, the database, `sscanf` and the clock are parameters.
pub mod Http
pub mod Refused
pub mod Rtsp
pub mod Same
use video_server.Base.{
  ℕ, Bool, true, false, not, ◌&&◌, List, [], ◌∷◌, ◌++◌, Option, none, some, take, ltb, ◌==◌,
  if◌then◌else◌,
}
use video_server.Base.Int.{ℤ, pos}
use video_server.Base.Run.{◌>>◌, check, Run, ok, ◌>>=◌}
use video_server.Base.Scan.{line_end, find_word}
use video_server.Base.Text.{codes, same_text}
use video_server.Buffer.{Buffer, readable_bytes}
use video_server.Buffer.Contents.{contents}
use video_server.Conn.{ServerConn, Protocol, http, rtsp, Iovec}
use video_server.Http.Request.{initial}
use video_server.Http.Request.Parse.{Parsed, parse, is_keep_alive}
use video_server.Http.Request.Users.{Mysql}
use video_server.Http.Response.{Files, HttpResponse, init_response, make_response}
use video_server.Rtsp.{RtspRequest}
use video_server.Rtsp.Request
use video_server.Rtsp.Request.{init_request}
use video_server.Rtsp.Response.{overruns, make_response_str, fill_response_buffer, reset_str}

-- The first vector, over what is readable of the write buffer.
abbrev pub head_of : Buffer → Iovec
head_of b = record { base = b.read_pos; len = readable_bytes b }

-- `regex("HTTP|RTSP")` and `g_protocolMatchTable`
abbrev pub protocol_words : List (List ℕ)
protocol_words = codes "HTTP" ∷ codes "RTSP" ∷ []

abbrev pub match_protocol : List ℕ → Protocol → Protocol
match_protocol line before = elim (find_word protocol_words line) [
  | none ↦ before
  | some word ↦ if same_text word (codes "RTSP") then rtsp else http
]

-- What the code uses besides its own.
pub record World : Type 1 where
  pub files : Files
  pub sql : Mysql
  pub sscanf : List ℕ → List ℕ → ℤ × ℤ → ℤ × ℤ
  pub date : List ℕ
  pub stamp : List ℕ
  pub src_dir : List ℕ

module _ (world : World) where
  open world use {files, sql, sscanf, date, stamp, src_dir}

  -- The response that a parsed or refused request is answered with.
  abbrev pub response_for : Parsed sql → HttpResponse
  response_for p =
      if p.result
      then init_response src_dir p.request.path (is_keep_alive p.request) (pos 200)
      else init_response src_dir p.request.path false (pos 400)

  -- The vectors of a response: the file is a second one if it has bytes.
  pub aim : HttpResponse → ServerConn → ServerConn
  aim r c =
      let one = record c { response = r; iov0 = head_of c.write_buff; iov_cnt = 1 } in
      elim r.file [
        | none ↦ one
        | some bytes ↦
            if ltb 0 r.file_stat.size
            then record one { iov1 = record { base = 0; len = r.file_stat.size }; iov_cnt = 2 }
            else one
      ]

  -- `processHttpRequest`
  pub process_http_request : ServerConn → sql.Database → Run (ServerConn × sql.Database)
  process_http_request c db = parse sql initial c.read_buff db >>= λ p.
      make_response files (response_for p) c.write_buff >>= λ (r, b).
      ok
        (aim r (record c { request = p.request; read_buff = p.buffer; write_buff = b }), p.database)

  -- `processRtspRequest`; true if a thread was started that streams. A write past an allocation is
  -- undefined behaviour: an `abort` here.
  pub process_rtsp_request : List ℕ → ServerConn → Run (ServerConn × Bool)
  process_rtsp_request line c =
      Request.parse sscanf (init_request c.rtsp_request) c.read_buff line >>= λ (good, (q, b)).
      let reset = reset_str c.rtsp_response in
      let read = record c { rtsp_request = q; read_buff = b; rtsp_response = reset } in
      let (answered, started) = make_response_str date stamp q reset in
      let filled = fill_response_buffer answered c.write_buff >>= λ out. ok (
        record read { rtsp_response = answered; write_buff = out; iov0 = head_of out; iov_cnt = 1 },
        started,
      ) in
      if good then check (not (overruns q)) >> filled else ok (read, false)

  abbrev pub by_protocol :
      Protocol → List ℕ → ServerConn → sql.Database → Run (ServerConn × (sql.Database × Bool))
  by_protocol http line c db = process_http_request c db >>= λ (c', db'). ok (c', (db', false))
  by_protocol rtsp line c db =
      process_rtsp_request line c >>= λ (c', started). ok (c', (db, started))

  -- `process`: also what it returns, and whether a stream was started.
  pub process : ServerConn → sql.Database → Run (Bool × (ServerConn × (sql.Database × Bool)))
  process c db =
      let text = contents c.read_buff in
      let line = take (line_end text) text in
      let protocol = match_protocol line c.protocol in
      if readable_bytes c.read_buff == 0
      then ok (false, (c, (db, false)))
      else by_protocol protocol line (record c { protocol = protocol }) db >>= λ p. ok (true, p)
