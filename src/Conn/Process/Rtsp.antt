-- ===== src/Conn/Process/Rtsp.antt =====
-- An RTSP request and its reply, from the read buffer to the write buffer.
use mathlib.Core.List.{append-nil}
use video_server.Base.{
  ℕ, All, Bool, ◌^◌, ◌<◌, ◌≡◌, refl, ap, ◌∙◌, inl, inr, true, false, List, [], ◌∷◌, ◌++◌, some,
  arith, length, take, ◌==◌, length-append, take-append_exact,
}
use video_server.Base.Run.{Ensures, ensures, Ensures-bind}
use video_server.Base.Scan.{line_end, find_word}
use video_server.Base.Text.{codes, has_byte}
use video_server.Buffer.{readable_bytes}
use video_server.Buffer.Contents.{contents, IsValid, length-slice}
use video_server.Buffer.Refine.{Holds}
use video_server.Conn.{ServerConn, rtsp}
use video_server.Conn.Io.{file_of}
use video_server.Conn.Io.Ready.{IsReady, pending}
use video_server.Conn.Process.{
  World, protocol_words, match_protocol, process, by_protocol, process_rtsp_request,
}
use video_server.Rtsp.{Method, RtspRequest, c_string}
use video_server.Rtsp.Request.{method_of, init_request}
use video_server.Rtsp.Request.Fields.{IsPlain, cseq_line}
use video_server.Rtsp.Request.Reads.{wire, AreLines, line_end-wire, parse-wire}
use video_server.Rtsp.Request.Url.{IsUrl, url_line, method_word}
use video_server.Rtsp.Request.Whole.{
  method_of-method_word, request_lines, heard, IsHeader, finds_method, process_lines-request_lines,
}
use video_server.Rtsp.Response.{
  overruns, overruns_of, RtspResponse, reset_str, answer_text, make_response_str,
}
use video_server.Rtsp.Response.Session.{IsKept, is_play, make_response_str-IsKept}
use video_server.Rtsp.Response.Answers.{make_response_str-text, fill_response_buffer_adds}

-- A request that a client writes, within the sizes of the arrays, with each line whole.
pub record IsRequest (m : Method) (host path version number : List ℕ) (headers : List (List ℕ))
    : Type 0 where
  pub url : IsUrl host path
  pub plain : IsPlain number
  pub number_fits : length number < 20
  pub are_headers : All (IsHeader m) headers
  pub lines : AreLines (request_lines m host path version number headers)

module _ (world : World) where
  open world use {sql, sscanf, date, stamp}

  -- The header lines of a request, from what the connection's last request left.
  abbrev pub heard_of : Method → List (List ℕ) → RtspRequest → RtspRequest
  heard_of m headers r = heard sscanf m headers (record (init_request r) { method = method_word m })

  -- All of the reply is in the buffer to be sent, and nothing of the request is left.
  pub record IsAnswered (text before : List ℕ) (d : ServerConn) : Type 0 where
    pub ready : IsReady d
    pub replied : pending d ≡ before ++ text
    pub drained : Holds [] d.read_buff

  -- What the connection keeps of a request, and whether a stream was started.
  pub record HasServed (m : Method) (path : List ℕ) (headers : List (List ℕ)) (q : RtspRequest)
      (r : RtspResponse) (d : ServerConn) (started : Bool) : Type 0 where
    pub kept : IsKept m path (heard_of m headers q) r d.rtsp_response
    pub starts : started ≡ is_play m
    pub rtp_port : d.rtsp_request.rtp_port ≡ (heard_of m headers q).rtp_port
    pub rtcp_port : d.rtsp_request.rtcp_port ≡ (heard_of m headers q).rtcp_port

  rtsp_answers :
      (m : Method) (host path version number text : List ℕ) (headers : List (List ℕ))
      (c : ServerConn)
      → overruns_of m ≡ false
      → IsRequest m host path version number headers
      → IsValid c.read_buff
      → IsValid c.write_buff
      → length (file_of c) < 2 ^ 64
      → contents c.read_buff ≡ wire (request_lines m host path version number headers)
      → answer_text date stamp m number
          (codes "rtsp://" ++ (host ++ b'/' ∷ []))
          path
          (heard_of m headers c.rtsp_request).rtp_port
          (heard_of m headers c.rtsp_request).rtcp_port
        ≡ some text
      → has_byte 0 text ≡ false
      → length text < 1024
      → Ensures
          (λ d.
            IsAnswered text (contents c.write_buff) d.0
            × HasServed m path headers c.rtsp_request c.rtsp_response d.0 d.1)
          (process_rtsp_request world (url_line m host path version) c)
  unfolding process_rtsp_request
  rtsp_answers m host path version number text headers c inside asked vr vw small holds answer clean
        fits =
      let lines = cseq_line number ∷ headers ++ [] ∷ [] in
      let first = url_line m host path version in
      let begun = init_request c.rtsp_request in
      let named = record begun { method = method_word m } in
      let read =
        process_lines-request_lines sscanf m host path version number headers named asked.url
          asked.plain asked.number_fits asked.are_headers refl in
      Ensures-bind
        (parse-wire sscanf first lines (method_word m) begun c.read_buff asked.lines vr holds
          (finds_method m host path version) read)
        (λ p (taken, (is_read, left)).
          let answered = (make_response_str date stamp p.1.0 (reset_str c.rtsp_response)).0 in
          let said : c_string answered.response_str ≡ text =
            make_response_str-text date stamp m host path number text (heard sscanf m headers named)
              p.1.0 (reset_str c.rtsp_response) is_read answer clean fits in
          let left_over =
            make_response_str-IsKept date stamp m host path number (heard sscanf m headers named)
              p.1.0 c.rtsp_response is_read in
          let stays : overruns p.1.0 ≡ false =
            ap (λ w. overruns_of (method_of w)) is_read.method
            ∙ ap overruns_of (method_of-method_word m)
            ∙ inside in
          rw (taken, stays)
            (Ensures-bind (fill_response_buffer_adds answered c.write_buff vw) (λ out filled.
              ensures (
                (
                  record {
                    ready = record {
                      valid = filled.0;
                      sized = refl;
                      placed = inr refl;
                      filed = inl refl;
                      small = small;
                    };
                    replied =
                        append-nil (contents out)
                        ∙ filled.1
                        ∙ ap (λ t. contents c.write_buff ++ t) said;
                    drained = left;
                  },
                  record {
                    kept = record {
                      ip = left_over.0.ip;
                      file = left_over.0.file;
                      rtp_port = left_over.0.rtp_port;
                      rtcp_port = left_over.0.rtcp_port;
                    };
                    starts = left_over.1;
                    rtp_port = is_read.rtp_port;
                    rtcp_port = is_read.rtcp_port;
                  },
                )))))

  by_rtsp {κ} :
      {P : ServerConn × Bool → Type κ} (line : List ℕ) (c : ServerConn) (db : sql.Database)
      → Ensures P (process_rtsp_request world line c)
      → Ensures (λ d. P (d.0, d.1.1)) (by_protocol world rtsp line c db)
  by_rtsp line c db h = Ensures-bind h (λ d k. ensures k)

  -- `process` of a request with a method but DESCRIBE, a URL, a version, a sequence number and further
  -- header lines reads it whole from the buffer and leaves the method's reply, with that URL, that
  -- number and the ports that the connection has, as what is to be sent behind what was there. It starts
  -- a stream exactly for PLAY, and keeps the address and the file for it; SETUP keeps the ports.
  -- The conditions: valid buffers, fields that fit their arrays and have no byte that the scans stop
  -- at, header lines in which the key words of a URL and a sequence number are not the first that
  -- are found, and for SETUP none at all, a first line that names RTSP, a method that has a reply, and
  -- a reply of less than 1024 bytes.
  pub process_answers :
      (m : Method) (host path version number text : List ℕ) (headers : List (List ℕ))
      (c : ServerConn) (db : sql.Database)
      → overruns_of m ≡ false
      → IsRequest m host path version number headers
      → IsValid c.read_buff
      → IsValid c.write_buff
      → length (file_of c) < 2 ^ 64
      → contents c.read_buff ≡ wire (request_lines m host path version number headers)
      → find_word protocol_words (url_line m host path version) ≡ some (codes "RTSP")
      → answer_text date stamp m number
          (codes "rtsp://" ++ (host ++ b'/' ∷ []))
          path
          (heard_of m headers c.rtsp_request).rtp_port
          (heard_of m headers c.rtsp_request).rtcp_port
        ≡ some text
      → has_byte 0 text ≡ false
      → length text < 1024
      → Ensures
          (λ d.
            (d.0 ≡ true)
            × (IsAnswered text (contents c.write_buff) d.1.0
                × HasServed m path headers c.rtsp_request c.rtsp_response d.1.0 d.1.1.1))
          (process world c db)
  unfolding process
  process_answers m host path version number text headers c db inside asked vr vw small holds names
        answer clean fits =
      let first = url_line m host path version in
      let tail = wire (cseq_line number ∷ headers ++ [] ∷ []) in
      let sizes = length-append first (13 ∷ 10 ∷ tail) in
      let size =
        length-slice c.read_buff.read_pos c.read_buff.write_pos c.read_buff.bytes vr.inside in
      let some_bytes : (readable_bytes c.read_buff == 0) ≡ false =
        ground (arith, ap length holds, size, sizes) in
      let end : line_end (contents c.read_buff) ≡ length first =
        ap line_end holds ∙ line_end-wire first tail asked.lines.0 in
      let line : take (length first) (contents c.read_buff) ≡ first =
        ap (take (length first)) holds
        ∙ take-append_exact (length first) first (13 ∷ 10 ∷ tail) refl in
      let named : match_protocol first c.protocol ≡ rtsp = rw (match_protocol, names) refl in
      rw (some_bytes, end, line, named)
        (Ensures-bind
          (by_rtsp first (record c { protocol = rtsp }) db
            (rtsp_answers m host path version number text headers (record c { protocol = rtsp })
              inside asked vr vw small holds answer clean fits))
          (λ d k. ensures (refl, k)))
