-- ===== src/Rtp/Session/Delivers.antt =====
-- `sendRTPPacket` with calls that go well: the stream is delivered, and all is closed.
use video_server.Base.{
  ℕ, ◌≤◌, ◌<◌, ◌≡◌, refl, Bool, true, false, not, ◌&&◌, List, [], ◌∷◌, ◌++◌, some, ◌^◌, length,
  drop, le→leb, arith,
}
use video_server.Base.Int.{ℤ, pos, is_negative, is_positive}
use video_server.Base.Run.{ok}
use video_server.Base.Text.{has_byte}
use video_server.Rtp.H264.{has_code}
use video_server.Rtp.Stream.{init, push_stream}
use video_server.Rtp.Stream.Serve.{Split, send_all, push_stream_sends}
use video_server.Rtp.Session.{
  System, server_rtp_port, server_rtcp_port, set_port, Delivery, delivered, copy_ip, open_parser,
  close_parser, create_socket, bind_socket, init_socket, serve, send_rtp_packet, to_port,
}
use video_server.Rtsp.{c_string}
use video_server.Rtsp.Request.Fields.{c_string-append}
use video_server.Rtsp.Request.{is_zero}
use video_server.Rtsp.Response.{RtspResponse}

module _ (system : System) where
  open system use {
    open_file, file_size, mmap, socket, reuse, send_buffer, bind, inet_pton, close, munmap,
  }

  -- Every call for a socket goes well.
  abbrev pub is_made : Bool → Bool
  is_made which =
      not (is_negative (socket which))
      && not (is_negative (reuse which))
      && not (is_negative (send_buffer which))

  abbrev pub sockets_well : Bool
  sockets_well =
      is_made true
      && not (is_negative (bind (socket true) server_rtp_port))
      && is_made false
      && not (is_negative (bind (socket false) server_rtcp_port))

  pub create_socket-made : (w : Bool) → is_made w ≡ true → create_socket system w ≡ socket w
  unfolding create_socket
  create_socket-made w h = ground arith

  pub create_socket-unmade :
      (w : Bool) → is_made w ≡ false → is_negative (create_socket system w) ≡ true
  unfolding create_socket
  create_socket-unmade w h = ground arith

  init_socket-well : sockets_well ≡ true → init_socket system ≡ some (socket true, socket false)
  unfolding init_socket bind_socket
  init_socket-well h =
      rw (create_socket-made true (ground arith), create_socket-made false (ground arith))
        (ground arith)

  -- What the client finds of its own in the reply, and the calls that go well.
  pub record IsServed (r : RtspResponse) (old_ip : List ℕ) (file text rest : List ℕ) (fd : ℤ)
      (port rtcp_port : ℕ) : Type 0 where
    pub is_open : is_negative fd ≡ false
    pub maps : mmap fd (file_size fd) ≡ some file
    pub closes : is_zero (close fd) ≡ true
    pub unmaps : is_zero (munmap file) ≡ true
    pub well : sockets_well ≡ true
    pub address : c_string r.ip ≡ text
    pub clean : has_byte 0 text ≡ false
    pub fits : length text ≤ 20
    pub ended : drop (length text) old_ip ≡ 0 ∷ rest
    pub rtp : r.rtp_port ≡ pos port
    pub rtcp : r.rtcp_port ≡ pos rtcp_port
    pub some_port : 0 < port
    pub some_rtcp_port : 0 < rtcp_port
    pub small_port : port < 2 ^ 16

  -- The run of the whole stream, all of it written out.
  abbrev pub delivery : List (List ℕ) → List ℕ → ℤ → ℕ → Delivery
  delivery fs text fd port = record {
    code = pos 0;
    packets = send_all fs (init (is_positive (socket true)));
    address = inet_pton text;
    port = port;
    closed = socket true ∷ socket false ∷ fd ∷ [];
  }

  set_port-rtp :
      (p q : ℕ) (old : ℤ × ℤ)
      → 0 < p
      → 0 < q
      → p < 2 ^ 16
      → to_port (set_port (pos p) (pos q) old).1.0 ≡ p
  unfolding set_port
  set_port-rtp p q old h i j = ground arith

  copy_ip_ends :
      (text old rest : List ℕ)
      → length text ≤ 20
      → drop (length text) old ≡ 0 ∷ rest
      → copy_ip text old ≡ ok (text ++ 0 ∷ rest)
  unfolding copy_ip
  copy_ip_ends text old rest h e = rw (le→leb (length text) 20 h, e) refl

  pub open_parser-can_read :
      (path file : List ℕ)
      → is_negative (open_file path) ≡ false
      → mmap (open_file path) (file_size (open_file path)) ≡ some file
      → open_parser system path ≡ ok (open_file path, file)
  unfolding open_parser
  open_parser-can_read path file e h = rw (e, h) refl

  serve_delivers :
      (r : RtspResponse) (old_ip file text rest : List ℕ) (fd : ℤ) (port rtcp_port : ℕ)
      (old : ℤ × ℤ) (fs : List (List ℕ))
      → IsServed r old_ip file text rest fd port rtcp_port
      → push_stream file (init (is_positive (socket true)))
        ≡ ok (pos 0, send_all fs (init (is_positive (socket true))))
      → serve system (fd, file) r old_ip old ≡ ok (delivered (delivery fs text fd port))
  unfolding serve close_parser
  serve_delivers r old_ip file text rest fd port rtcp_port old fs s sent =
      let copied = copy_ip_ends text old_ip rest s.fits s.ended in
      let sized = set_port-rtp port rtcp_port old s.some_port s.some_rtcp_port s.small_port in
      rw
        (
          serve,
          init_socket-well s.well,
          s.address,
          copied,
          sent,
          s.closes,
          s.unmaps,
          c_string-append text rest s.clean,
          s.rtp,
          s.rtcp,
          sized,
        )
        refl

  -- With a file that starts with a start code and calls that go well, PLAY's thread sends the packets
  -- of the file's frames, but for the bytes from the last start code on, to the address and the port
  -- that the reply keeps, and closes both sockets and the file.
  -- The conditions: the address fits its array and the byte behind it is 0, and the ports are positive
  -- and fit 16 bits.
  pub send_rtp_packet_delivers :
      (r : RtspResponse) (old_ip file text rest : List ℕ) (port rtcp_port : ℕ) (old : ℤ × ℤ)
      → IsServed r old_ip file text rest (open_file (c_string r.file_path)) port rtcp_port
      → has_code file ≡ true
      → (fs : List (List ℕ)) × ((left : List ℕ) × (Split file fs left
            × (send_rtp_packet system r old_ip old
                ≡ ok (delivered (delivery fs text (open_file (c_string r.file_path)) port)))))
  unfolding send_rtp_packet
  send_rtp_packet_delivers r old_ip file text rest port rtcp_port old s code =
      let fd = open_file (c_string r.file_path) in
      let (fs, (left, (split, sent))) =
        push_stream_sends file (init (is_positive (socket true))) code in
      let served = serve_delivers r old_ip file text rest fd port rtcp_port old fs s sent in
      (
        fs,
        (
          left,
          (split, rw (open_parser-can_read (c_string r.file_path) file s.is_open s.maps) served),
        ),
      )
