-- ===== src/Conn/Tests.antt =====
-- Runs of a connection, and its theorems at concrete inputs.
use video_server.Base.{ℕ, ◌≡◌, refl, inr, true, false, List, [], ◌∷◌, some, arith}
use video_server.Base.Run.{Run, Ensures}
use video_server.Base.Text.{codes}
use video_server.Conn.{ServerConn}
use video_server.Conn.Io.{write}
use video_server.Conn.Io.Ready.{IsReady}
use video_server.Conn.Io.Write.{IsSent, write_sends}
use video_server.Conn.Process.{process}
use video_server.Conn.Process.Rtsp.{IsRequest, IsAnswered, HasServed, process_answers}
use video_server.Conn.Sample.{
  bytes_or, port_world, slow, slow-IsTaken, holding, holding-IsValid, client,
}
use video_server.Http.Response.{init_response}
use video_server.Rtsp.{play}
use video_server.Rtsp.Response.{answer_text}
use video_server.Rtsp.Request.Reads.{wire}
use video_server.Rtsp.Request.Whole.{request_lines}
use video_server.Base.Int.{pos}

-- Three bytes in the buffer and two of a file.
abbrev loaded : ServerConn
loaded = record (client []) {
  write_buff = holding (1 ∷ 2 ∷ 3 ∷ []);
  iov0 = record { base = 0; len = 3 };
  iov1 = record { base = 0; len = 2 };
  iov_cnt = 2;
  response = record (init_response [] [] false (pos 200)) { file = some (8 ∷ 9 ∷ []) };
}

loaded-IsReady : IsReady loaded
loaded-IsReady = record {
  valid = holding-IsValid (1 ∷ 2 ∷ 3 ∷ []);
  sized = refl;
  placed = inr refl;
  filed = inr (omega arith);
  small = omega arith;
}

write_sends_example : Ensures (IsSent (λ e. Unit) true loaded) (write slow true loaded)
write_sends_example =
    write_sends slow (λ e. Unit) (slow-IsTaken (λ e. Unit)) true loaded loaded-IsReady

abbrev get_page : List ℕ
get_page = codes "GET / HTTP/1.1\r\nHost: a\r\n\r\n"

abbrev headers : List (List ℕ)
headers = codes "User-Agent: player" ∷ []

abbrev ask : List ℕ
ask = wire (
    request_lines play (codes "192.168.1.7:8554") (codes "a.264") (codes "RTSP/1.0") (codes "4")
      headers)

abbrev play_reply : List ℕ
play_reply = bytes_or [] (
    answer_text port_world.date port_world.stamp play (codes "4") (codes "rtsp://192.168.1.7:8554/")
      (codes "a.264") (pos 0) (pos 0))

ask-IsRequest :
    IsRequest play (codes "192.168.1.7:8554") (codes "a.264") (codes "RTSP/1.0") (codes "4") headers
ask-IsRequest = record {
  url = record {
    some_host = omega arith;
    whole_host = refl;
    host_no_zero = refl;
    host_fits = omega arith;
    path_start = refl;
    no_colon = refl;
    no_space = refl;
    path_no_zero = refl;
    path_fits = omega arith;
  };
  plain = record { no_zero = refl; no_letter = refl; no_space = refl; no_return = refl };
  number_fits = omega arith;
  are_headers = ((refl, refl), tt);
  lines = (refl, (refl, (refl, (refl, tt))));
}

process_answers_example :
    Ensures
      (λ d.
        (d.0 ≡ true)
        × (IsAnswered port_world play_reply [] d.1.0
            × HasServed port_world play
                (codes "a.264")
                headers
                (client ask).rtsp_request
                (client ask).rtsp_response
                d.1.0
                d.1.1.1))
      (process port_world (client ask) [])
process_answers_example =
    process_answers port_world play (codes "192.168.1.7:8554") (codes "a.264") (codes "RTSP/1.0")
      (codes "4") play_reply headers (client ask) [] refl ask-IsRequest (holding-IsValid ask)
      (holding-IsValid []) (omega arith) refl refl refl refl (omega arith)
