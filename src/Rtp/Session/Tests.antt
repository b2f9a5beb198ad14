-- ===== src/Rtp/Session/Tests.antt =====
-- Runs of a whole stream, and the theorems on it at concrete inputs.
use video_server.Base.{ℕ, ◌≡◌, refl, true, List, [], ◌++◌, replicate, arith}
use video_server.Base.Int.{ℤ, pos, is_negative}
use video_server.Base.Run.{ok, abort}
use video_server.Base.Text.{codes}
use video_server.Rtp.Stream.Serve.{Split}
use video_server.Rtp.Session.{delivered, send_rtp_packet}
use video_server.Rtp.Session.Sample.{two_units, system, bind_any, unset}
use video_server.Rtp.Session.Delivers.{IsServed, delivery, send_rtp_packet_delivers}
use video_server.Rtp.Session.Fails.{send_rtp_packet_fails}
use video_server.Rtsp.Response.{RtspResponse}

abbrev playing : List ℕ → RtspResponse
playing path = record {
  response_str = [];
  file_path = path ++ replicate 10 0;
  ip = codes "192.168.1.100" ++ replicate 7 0;
  rtp_port = pos 5000;
  rtcp_port = pos 5001;
}

client-IsServed :
    IsServed system
      (playing (codes "a.264"))
      unset
      two_units
      (codes "192.168.1.100")
      (replicate 6 0)
      (pos 7)
      5000
      5001
client-IsServed = record {
  is_open = refl;
  maps = refl;
  closes = refl;
  unmaps = refl;
  well = refl;
  address = refl;
  clean = refl;
  fits = omega arith;
  ended = refl;
  rtp = refl;
  rtcp = refl;
  some_port = omega arith;
  some_rtcp_port = omega arith;
  small_port = omega arith;
}

send_rtp_packet_delivers_example :
    (fs : List (List ℕ)) × ((left : List ℕ) × (Split two_units fs left
        × (send_rtp_packet system (playing (codes "a.264")) unset (pos 0, pos 0)
            ≡ ok (delivered (delivery system fs (codes "192.168.1.100") (pos 7) 5000)))))
send_rtp_packet_delivers_example =
    send_rtp_packet_delivers system (playing (codes "a.264")) unset two_units
      (codes "192.168.1.100") (replicate 6 0) 5000 5001 (pos 0, pos 0) client-IsServed refl

bind_any_refuses :
    (fd : ℤ) (port : ℕ) → is_negative fd ≡ true → is_negative (bind_any fd port) ≡ true
bind_any_refuses fd port h = rw h refl

send_rtp_packet_fails_example :
    send_rtp_packet system (playing (codes "b.264")) unset (pos 0, pos 0) ≡ abort
send_rtp_packet_fails_example =
    send_rtp_packet_fails system (playing (codes "b.264")) unset (pos 0, pos 0) bind_any_refuses
      refl
