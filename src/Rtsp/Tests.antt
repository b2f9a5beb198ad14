-- ===== src/Rtsp/Tests.antt =====
-- Runs of the RTSP code, and its theorems at concrete inputs.
use video_server.Base.{ℕ, ◌≡◌, refl, true, List, [], ◌∷◌, ◌++◌, arith, length, replicate}
use video_server.Base.Int.{ℤ, pos}
use video_server.Base.Run.{Ensures}
use video_server.Base.Text.{codes}
use video_server.Buffer.{Buffer}
use video_server.Buffer.Refine.{Holds}
use video_server.Rtsp.{RtspRequest, options}
use video_server.Rtsp.Request.{parse}
use video_server.Rtsp.Request.Reads.{wire, parse-wire}
use video_server.Rtsp.Request.Url.{IsUrl, url_line}
use video_server.Rtsp.Request.Whole.{IsRead, request_lines, process_lines-request_lines}
use video_server.Rtsp.Response.{RtspResponse}

abbrev fresh : RtspRequest
fresh = record {
  cseq = replicate 20 0;
  method = [];
  pre_suffix = replicate 200 0;
  suffix = replicate 200 0;
  rtp_port = pos 0;
  rtcp_port = pos 0;
}

-- The reply array is not looked at here.
abbrev known : RtspResponse
known = record {
  response_str = [];
  file_path = [];
  ip = codes "192.168.1.100" ++ 0 ∷ replicate 6 0;
  rtp_port = pos 0;
  rtcp_port = pos 0;
}

abbrev host : List ℕ
host = codes "192.168.1.7:8554"

abbrev path : List ℕ
path = codes "a.264"

file-IsUrl : IsUrl host path
file-IsUrl = record {
  some_host = omega arith;
  whole_host = refl;
  host_no_zero = refl;
  host_fits = omega arith;
  path_start = refl;
  no_colon = refl;
  no_space = refl;
  path_no_zero = refl;
  path_fits = omega arith;
}

-- `sscanf` is not called for these lines.
abbrev no_ports : List ℕ → List ℕ → ℤ × ℤ → ℤ × ℤ
no_ports format line ports = ports

abbrev ask : List ℕ
ask = wire (request_lines options host path (codes "RTSP/1.0") (codes "2") [])

abbrev asking : Buffer
asking = record { bytes = ask; read_pos = 0; write_pos = length ask }

parse-wire_example :
    Ensures
      (λ p.
        (p.0 ≡ true)
        × (IsRead options host path (codes "2") (record fresh { method = codes "OPTIONS" }) p.1.0
            × Holds [] p.1.1))
      (parse no_ports fresh asking (url_line options host path (codes "RTSP/1.0")))
parse-wire_example =
    parse-wire no_ports (url_line options host path (codes "RTSP/1.0")) (codes "CSeq: 2" ∷ [] ∷ [])
      (codes "OPTIONS") fresh asking (refl, (refl, (refl, tt)))
      (record { ordered = omega arith; inside = omega arith }) refl refl
      (process_lines-request_lines no_ports options host path (codes "RTSP/1.0") (codes "2") []
        (record fresh { method = codes "OPTIONS" }) file-IsUrl
        (record { no_zero = refl; no_letter = refl; no_space = refl; no_return = refl })
        (omega arith) tt refl)
