-- ===== src/Rtp/Session.antt =====
-- A whole run of `sendRTPPacket` of code/rtsp/rtspresponse.cpp, the thread that PLAY starts: the
-- constructors, destructors, `init` and `setPort` of code/rtp/rtp.cpp and h264parser.cpp around the stream.
-- The system calls are parameters, and so is what an array has in it before its first use. The reply is
-- taken as it stands when the thread starts.
pub mod Delivers
pub mod Fails
pub mod Sample
mod Tests
use video_server.Base.{
  ℕ, ◌≤◌, ◌<◌, ◌≡◌, refl, sym, ap, ◌∙◌, Bool, true, false, not, ◌&&◌, ◌||◌, List, [], ◌∷◌, ◌++◌,
  Option, none, some, ◌+◌, ◌%◌, ◌-◌, ◌^◌, length, drop, leb, le→leb, ltb, arith, ◌==◌,
  if◌then◌else◌, Bool-cases, inl, inr, Option-cases,
}
use video_server.Base.Int.{ℤ, pos, negsuc, is_negative, is_positive}
use video_server.Base.Run.{Run, ok, abort, check, ◌>>=◌, ◌>>◌}
use video_server.Base.Text.{has_byte}
use video_server.Rtp.H264.{has_code}
use video_server.Rtp.Stream.{Rtp, init, push_stream}
use video_server.Rtp.Stream.Serve.{Split, send_all, push_stream_sends}
use video_server.Rtsp.{string_min, c_string}
use video_server.Rtsp.Request.Fields.{c_string-append}
use video_server.Rtsp.Request.{is_zero}
use video_server.Rtsp.Response.{RtspResponse}

-- What the calls return: `true` stands for the socket of RTP, `false` for that of RTCP.
pub record System : Type 0 where
  pub open_file : List ℕ → ℤ
  pub file_size : ℤ → ℕ
  pub mmap : ℤ → ℕ → Option (List ℕ)
  pub socket : Bool → ℤ
  pub reuse : Bool → ℤ
  pub send_buffer : Bool → ℤ
  pub bind : ℤ → ℕ → ℤ
  pub inet_pton : List ℕ → ℕ
  pub close : ℤ → ℤ
  pub munmap : List ℕ → ℤ

abbrev pub server_rtp_port : ℕ
server_rtp_port = 12345

abbrev pub server_rtcp_port : ℕ
server_rtcp_port = server_rtp_port + 1

-- The conversion of a port to the 16 bits of `sin_port`.
abbrev pub to_port : ℤ → ℕ
to_port (pos n) = n % 2 ^ 16
to_port (negsuc n) = 2 ^ 16 - 1 - n % 2 ^ 16

-- `setPort`: what it returns, and the two ports.
pub set_port : ℤ → ℤ → ℤ × ℤ → Bool × (ℤ × ℤ)
set_port rtp_port rtcp_port old =
    if not (is_positive rtp_port) || not (is_positive rtcp_port)
    then (false, old)
    else (true, (rtp_port, rtcp_port))

-- What is sent, to which address and port, what `pushStream` returns, and the descriptors that are
-- closed behind it, in order.
pub record Delivery : Type 0 where
  pub code : ℤ
  pub packets : List (List ℕ)
  pub address : ℕ
  pub port : ℕ
  pub closed : List ℤ

-- `exit(EXIT_FAILURE)` ends the whole program.
pub data Outcome : Type 0 where
  exited : Outcome
  delivered : Delivery → Outcome

-- `memcpy(m_Ip, ip, strlen(ip))`
pub copy_ip : List ℕ → List ℕ → Run (List ℕ)
copy_ip text old =
    if leb (length text) string_min then ok (text ++ drop (length text) old) else abort

module _ (system : System) where
  open system use {
    open_file, file_size, mmap, socket, reuse, send_buffer, bind, inet_pton, close, munmap,
  }

  -- `H264Parser::H264Parser`: the descriptor and the mapped bytes.
  pub open_parser : List ℕ → Run (ℤ × List ℕ)
  open_parser path =
      let fd = open_file path in
      check (not (is_negative fd))
      >> elim (mmap fd (file_size fd)) [ none ↦ abort | some bytes ↦ ok (fd, bytes) ]

  -- `H264Parser::~H264Parser`
  pub close_parser : ℤ × List ℕ → Run (Unit {0})
  close_parser parser = check (is_zero (close parser.0)) >> check (is_zero (munmap parser.1))

  -- `createSocket`
  pub create_socket : Bool → ℤ
  create_socket which =
      if is_negative (socket which)
      then socket which
      else if is_negative (reuse which)
      then negsuc 0
      else if is_negative (send_buffer which)
      then negsuc 0
      else socket which

  -- `bindSocket`, at any address
  pub bind_socket : ℤ → ℕ → Bool
  bind_socket fd port = not (is_negative (bind fd port))

  -- `initSocket`; none where it exits.
  pub init_socket : Option (ℤ × ℤ)
  init_socket =
      let rtp = create_socket true in
      let rtcp = create_socket false in
      if not (bind_socket rtp server_rtp_port)
      then none
      else if not (bind_socket rtcp server_rtcp_port)
      then none
      else some (rtp, rtcp)

  -- `RTP::init`, the ports, the stream, and the destructors of the `RTP`.
  pub serve : ℤ × List ℕ → RtspResponse → List ℕ → ℤ × ℤ → Run Outcome
  serve parser r old_ip old = elim init_socket [
    | none ↦ ok exited
    | some fds ↦ copy_ip (c_string r.ip) old_ip >>= λ ip.
        push_stream parser.1 (init (is_positive fds.0)) >>= λ sent.
        close_parser parser
        >> ok (
            delivered record {
              code = sent.0;
              packets = sent.1;
              address = inet_pton (c_string ip);
              port = to_port (set_port r.rtp_port r.rtcp_port old).1.0;
              closed = fds.0 ∷ fds.1 ∷ parser.0 ∷ [];
            })
  ]

  -- `sendRTPPacket`; a port that `setPort` refuses is only logged.
  pub send_rtp_packet : RtspResponse → List ℕ → ℤ × ℤ → Run Outcome
  send_rtp_packet r old_ip old =
      open_parser (c_string r.file_path) >>= λ parser. serve parser r old_ip old
