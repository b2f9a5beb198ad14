-- ===== src/Rtp/Session/Fails.antt =====
-- `sendRTPPacket` with a call that fails: the whole program ends.
use video_server.Base.{
  ℕ, ◌≡◌, refl, sym, ap, ◌∙◌, Bool, true, false, not, ◌&&◌, List, Option, none, some, arith,
  if◌then◌else◌, Bool-cases, inl, inr, Option-cases,
}
use video_server.Base.Int.{ℤ, is_negative}
use video_server.Base.Run.{ok, abort}
use video_server.Rtp.Session.{
  System, server_rtp_port, server_rtcp_port, exited, open_parser, create_socket, bind_socket,
  init_socket, serve, send_rtp_packet,
}
use video_server.Rtsp.{c_string}
use video_server.Rtsp.Response.{RtspResponse}
use video_server.Rtp.Session.Delivers.{
  is_made, sockets_well, create_socket-made, create_socket-unmade, open_parser-can_read,
}

abbrev is_some {ℓ} : {A : Type ℓ} → Option A → Bool
is_some none = false
is_some (some a) = true

module _ (system : System) where
  open system use {
    open_file, file_size, mmap, socket, reuse, send_buffer, bind, inet_pton, close, munmap,
  }

  -- The file can be opened and mapped.
  abbrev pub can_read : List ℕ → Bool
  can_read path =
      not (is_negative (open_file path))
      && is_some (mmap (open_file path) (file_size (open_file path)))

  init_socket-ill :
      ((fd : ℤ) (port : ℕ) → is_negative fd ≡ true → is_negative (bind fd port) ≡ true)
      → sockets_well system ≡ false
      → init_socket system ≡ none
  unfolding init_socket bind_socket
  init_socket-ill refuses h = elim (Bool-cases (is_made system true)) [
    | inr e ↦
        rw
          (refuses (create_socket system true) server_rtp_port (create_socket-unmade system true e))
          refl
    | inl e ↦ rw (create_socket-made system true e) (elim (Bool-cases (is_made system false)) [
      | inr e ↦
          rw
            (refuses (create_socket system false) server_rtcp_port
              (create_socket-unmade system false e))
            (ground arith)
      | inl e2 ↦ rw (create_socket-made system false e2) (ground arith)
    ])
  ]

  serve_exits :
      (parser : ℤ × List ℕ) (r : RtspResponse) (old_ip : List ℕ) (old : ℤ × ℤ)
      → init_socket system ≡ none
      → serve system parser r old_ip old ≡ ok exited
  unfolding serve
  serve_exits parser r old_ip old e = rw (serve, e) refl

  open_parser-abort : (path : List ℕ) → can_read path ≡ false → open_parser system path ≡ abort
  unfolding open_parser
  open_parser-abort path h = elim (Bool-cases (is_negative (open_file path))) [
    | inl e ↦ rw e refl
    | inr e ↦ elim (Option-cases (mmap (open_file path) (file_size (open_file path)))) [
      | inl none_here ↦ rw (e, none_here) refl
      | inr (bytes, here) ↦
          let read : can_read path ≡ true = rw (e, here) refl in absurd (ground (arith, read, h))
    ]
  ]

  opened :
      (path : List ℕ)
      → can_read path ≡ true
      → (file : List ℕ) × (open_parser system path ≡ ok (open_file path, file))
  opened path h = elim (Option-cases (mmap (open_file path) (file_size (open_file path)))) [
    | inl none_here ↦ absurd (ground (arith, ap (is_some {A = List ℕ}) none_here))
    | inr (bytes, here) ↦ (bytes, open_parser-can_read system path bytes (ground arith) here)
  ]

  -- A file that cannot be opened or mapped fails the parser's assertion, and with a file any call for the
  -- sockets that fails exits: in both cases the whole program ends.
  -- The condition: `bind` refuses a negative descriptor.
  pub send_rtp_packet_fails :
      (r : RtspResponse) (old_ip : List ℕ) (old : ℤ × ℤ)
      → ((fd : ℤ) (port : ℕ) → is_negative fd ≡ true → is_negative (bind fd port) ≡ true)
      → (can_read (c_string r.file_path) && sockets_well system) ≡ false
      → send_rtp_packet system r old_ip old
        ≡ (if can_read (c_string r.file_path) then ok exited else abort)
  unfolding send_rtp_packet
  send_rtp_packet_fails r old_ip old refuses h =
      let path = c_string r.file_path in
      elim (Bool-cases (can_read path)) [
        | inr e ↦ rw (open_parser-abort path e, e) refl
        | inl e ↦
            let (file, is_opened) = opened path e in
            let ill : sockets_well system ≡ false =
              ap (λ b. b && sockets_well system) (sym e) ∙ h in
            rw (is_opened, e)
              (serve_exits (open_file path, file) r old_ip old (init_socket-ill refuses ill))
      ]
