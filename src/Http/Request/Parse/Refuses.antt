-- ===== src/Http/Request/Parse/Refuses.antt =====
-- A first line that is no request line: `parse` returns false, with everything as it was.
use video_server.Base.{ℕ, suc, ◌+◌, ◌≡◌, refl, false, List, none, take, ◌==◌, arith}
use video_server.Base.Run.{ok}
use video_server.Base.Scan.{line_end}
use video_server.Base.Text.{codes}
use video_server.Buffer.{Buffer, readable_bytes}
use video_server.Buffer.Contents.{contents}
use video_server.Http.Request.{initial, request_line}
use video_server.Http.Request.Parse.{
  parse, parse_loop, parse_in, parse_request_line, match_request_line,
}
use video_server.Http.Request.Users.{Mysql}

module _ (sql : Mysql) where
  open sql use {Database}

  line_refused :
      (line : List ℕ) (readable : ℕ) (db : Database)
      → match_request_line line ≡ none
      → parse_in sql request_line line readable initial db ≡ ok (false, (initial, db))
  unfolding parse_in parse_request_line
  line_refused line readable db bad = rw (bad, parse_request_line) refl

  parse_loop_refuses :
      (fuel : ℕ) (b : Buffer) (db : Database)
      → (readable_bytes b == 0) ≡ false
      → match_request_line (take (line_end (contents b)) (contents b)) ≡ none
      → parse_loop sql (suc fuel) initial b db
        ≡ ok (record { result = false; request = initial; buffer = b; database = db })
  unfolding parse_loop
  parse_loop_refuses fuel b db more bad =
      let line = take (line_end (contents b)) (contents b) in
      rw (more, line_refused line (readable_bytes b) db bad) refl

  pub parse_refuses :
      (b : Buffer) (db : Database)
      → (readable_bytes b == 0) ≡ false
      → match_request_line (take (line_end (contents b)) (contents b)) ≡ none
      → parse sql initial b db
        ≡ ok (record { result = false; request = initial; buffer = b; database = db })
  unfolding parse
  parse_refuses b db more bad =
      let fuel : readable_bytes b + 1 ≡ suc (readable_bytes b) = omega arith in
      rw (more, fuel) (parse_loop_refuses (readable_bytes b) b db more bad)

-- A line without a version is no request line.
pub match_request_line-no_version : match_request_line (codes "GET HTTP") ≡ none
unfolding match_request_line
match_request_line-no_version = refl
