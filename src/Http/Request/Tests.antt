-- ===== src/Http/Request/Tests.antt =====
-- Runs of the HTTP request code, and its theorems at concrete inputs.
use video_server.Base.{ℕ, ◌≡◌, refl, true, false, ◌⊎◌, List, [], ◌∷◌, ◌++◌, arith}
use video_server.Base.Run.{Ensures, ok}
use video_server.Base.Text.{codes, insert}
use video_server.Buffer.{Buffer}
use video_server.Buffer.Contents.{contents, IsValid}
use video_server.Http.Request.{initial}
use video_server.Http.Request.Form.{parse_from_urlencoded}
use video_server.Http.Request.Form.Encoded.{parse_from_urlencoded-encode}
use video_server.Http.Request.Users.{
  Mysql, Row, user_verify, user_verify-passes, select_order, insert_order,
}
use video_server.Http.Request.Parse.{parse}
use video_server.Http.Request.Parse.Total.{Read, is_begun, parse_reads}

-- A database of rows, in which every query finds all of them, and none fails.
abbrev toy : Mysql
toy = record {
  Database = List Row;
  connects = λ db. true;
  query = λ q db. (false, db);
  rows = λ db. db;
}

abbrev users : List Row
users = (codes "ann", codes "one") ∷ []

select_ann :
    select_order (codes "ann")
    ≡ codes "SELECT username, password FROM user WHERE username='ann' LIMIT 1"
unfolding select_order
select_ann = refl

insert_ann :
    insert_order (codes "ann") (codes "one")
    ≡ codes "INSERT INTO user(username, password) VALUES('ann','one')"
unfolding insert_order
insert_ann = refl

user_verify-passes_example :
    user_verify toy (codes "ann") (codes "two") true users ≡ ok (false, users)
user_verify-passes_example = user_verify-passes toy (codes "ann") (codes "two") true users

parse_from_urlencoded-encode_example :
    Ensures
      (λ r.
        (r.0 ≡ codes "username=ann&password=one")
        × (r.1
            ≡ insert (codes "password") (codes "one") (insert (codes "username") (codes "ann") [])))
      (parse_from_urlencoded (codes "username=ann&password=one") [])
parse_from_urlencoded-encode_example =
    parse_from_urlencoded-encode ((codes "username", codes "ann") ∷ [])
      (codes "password", codes "one") [] ((refl, refl), tt) (refl, refl) (omega arith) refl

abbrev request_bytes : List ℕ
request_bytes = codes "GET / HTTP/1.1" ++ 13 ∷ 10 ∷ (codes "Host: a" ++ 13 ∷ 10 ∷ 13 ∷ 10 ∷ [])

abbrev filled : Buffer
filled = record { bytes = request_bytes; read_pos = 0; write_pos = 27 }

filled-IsValid : IsValid filled
filled-IsValid = record { ordered = omega arith; inside = omega arith }

parse_reads_example :
    Ensures
      (λ p.
        Read toy (λ db. refl) filled p
        ⊎ (((is_begun initial ≡ false) ⊎ (contents filled ≡ []))
            × ((p.result ≡ false)
                × ((p.request ≡ initial) × ((p.buffer ≡ filled) × (p.database ≡ users))))))
      (parse toy initial filled users)
parse_reads_example = parse_reads toy (λ db. refl) initial filled users filled-IsValid refl
