-- ===== src/Conn/Process/Same.antt =====
-- `process` leaves the descriptor, and whether the connection is closed.
use video_server.Base.{ℕ, not, ◌≡◌, refl, List, Option, none, some, ltb, ◌==◌, inl, inr, Bool-cases}
use video_server.Base.Run.{check, Yields, yields, Yields-any, Yields-bind, Yields-if}
use video_server.Buffer.{readable_bytes}
use video_server.Conn.{ServerConn, IsSame, Protocol, http, rtsp}
use video_server.Conn.Process.{
  World, aim, response_for, process_http_request, process_rtsp_request, by_protocol, process,
}
use video_server.Http.Request.{initial}
use video_server.Http.Request.Parse.{parse}
use video_server.Http.Response.{HttpResponse, make_response}
use video_server.Rtsp.Request
use video_server.Rtsp.Request.{init_request}
use video_server.Rtsp.Response.{overruns, fill_response_buffer}

module _ (world : World) where
  open world use {files, sql, sscanf, date, stamp, src_dir}

  aim-IsSame : (r : HttpResponse) (c : ServerConn) → IsSame c (aim world r c)
  unfolding aim
  aim-IsSame r c = by_file r.file refl
    where
      by_file : (o : Option (List ℕ)) → r.file ≡ o → IsSame c (aim world r c)
      by_file none e = rw (e, aim) (refl, refl)
      by_file (some bytes) e = elim (Bool-cases (ltb 0 r.file_stat.size)) [
        | inl some_bytes ↦ rw (e, aim, some_bytes) (refl, refl)
        | inr empty ↦ rw (e, aim, empty) (refl, refl)
      ]

  process_http-IsSame :
      (c : ServerConn) (db : sql.Database)
      → Yields (λ p. IsSame c p.0) (process_http_request world c db)
  unfolding process_http_request
  process_http-IsSame c db =
      Yields-bind (Yields-any (parse sql initial c.read_buff db) (λ p. tt)) λ p (_ : Unit {0}).
        Yields-bind (Yields-any (make_response files (response_for world p) c.write_buff) (λ q. tt))
          λ q (_ : Unit {0}). yields (aim-IsSame q.0 _)

  process_rtsp-IsSame :
      (line : List ℕ) (c : ServerConn)
      → Yields (λ p. IsSame c p.0) (process_rtsp_request world line c)
  unfolding process_rtsp_request
  process_rtsp-IsSame line c =
      Yields-bind
        (Yields-any (Request.parse sscanf (init_request c.rtsp_request) c.read_buff line) (λ p. tt))
        λ p (_ : Unit {0}).
          Yields-if p.0
            (Yields-bind (Yields-any (check (not (overruns p.1.0))) (λ u. tt)) λ u (_ : Unit {0}).
              Yields-bind (Yields-any (fill_response_buffer _ c.write_buff) (λ b. tt))
                λ b (_ : Unit {0}). yields (refl, refl))
            (yields (refl, refl))

  by_protocol-IsSame :
      (protocol : Protocol) (line : List ℕ) (c : ServerConn) (db : sql.Database)
      → Yields (λ p. IsSame c p.0) (by_protocol world protocol line c db)
  by_protocol-IsSame http line c db = Yields-bind (process_http-IsSame c db) λ p k. yields k
  by_protocol-IsSame rtsp line c db = Yields-bind (process_rtsp-IsSame line c) λ p k. yields k

  pub process-IsSame :
      (c : ServerConn) (db : sql.Database) → Yields (λ p. IsSame c p.1.0) (process world c db)
  unfolding process
  process-IsSame c db =
      Yields-if (readable_bytes c.read_buff == 0) (yields (refl, refl))
        (Yields-bind (by_protocol-IsSame _ _ _ db) λ p k. yields k)
