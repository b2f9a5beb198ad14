-- ===== src/Server/Tests.antt =====
-- Runs of the event handlers, and their theorems at concrete inputs.
use video_server.Base.{ℕ, ◌≡◌, refl, true, false, List}
use video_server.Base.Int.{pos, negsuc}
use video_server.Base.Text.{codes}
use video_server.Conn.{ServerConn}
use video_server.Conn.Sample.{holding, client}
use video_server.Server.{init_event_mode}

init_event_mode_modes :
    (init_event_mode (pos 1) ≡ (false, true)) × (init_event_mode (negsuc 0) ≡ (true, true))
unfolding init_event_mode
init_event_mode_modes = (refl, refl)

-- A reply of eight bytes that is to be sent.
abbrev replying : List ℕ → ServerConn
replying text = record (client text) {
  write_buff = holding (codes "HTTP/1.1");
  iov0 = record { base = 0; len = 8 };
}

-- A first line without a version.
abbrev bad_line : List ℕ
bad_line = codes "GET HTTP\r\n"
