-- ===== src/Log/Lines/Tests.antt =====
-- Runs of the log, and its theorem at a concrete input.
use video_server.Base.{◌≡◌, refl, true, [], arith, replicate}
use video_server.Base.Int.{pos}
use video_server.Base.Run.{ok, Ensures}
use video_server.Base.Text.{codes}
use video_server.Log.Lines.{Moment, Log, write_line, rotate, log_base}
use video_server.Log.Lines.Written.{IsLogged, line_of, write_line_logs}

abbrev noon : Moment
noon = record { day = 1; tail = codes "2024_03_01"; stamp = codes "2024-03-01 12:00:00.000000 " }

-- The day's file is full.
abbrev full_file : Log
full_file = record {
  line_count = 50000;
  to_day = 1;
  path = codes "./log";
  suffix = codes ".log";
  buff = record { bytes = replicate 64 0; read_pos = 0; write_pos = 0 };
  is_async = true;
  queue = [];
  capacity = 1000;
  file = codes "./log/2024_03_01.log";
  printed = [];
}

rotate_numbers :
    rotate true noon full_file ≡ ok (record full_file { file = codes "./log/2024_03_01-1.log" })
unfolding rotate
rotate_numbers = refl

write_line_logs_example :
    Ensures
      (IsLogged noon (line_of (pos 1) noon (codes "Client quit")) full_file)
      (write_line true (pos 1) noon (codes "Client quit") full_file)
write_line_logs_example =
    write_line_logs true (pos 1) noon (codes "Client quit") full_file (λ same. refl) (λ turns. refl)
      (record { ordered = omega arith; inside = omega arith }, refl) (omega arith) (omega arith)

-- Too low a level is not written.
log_base_quiet : log_base true true (pos 1) (pos 0) noon (codes "hidden") full_file ≡ ok full_file
unfolding log_base
log_base_quiet = refl
