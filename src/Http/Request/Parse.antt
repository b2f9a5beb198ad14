-- ===== src/Http/Request/Parse.antt =====
-- `HttpRequest::parse` and the parsers of its lines.
-- `std::regex` matches as the standard says: `[^ ]*` and `[^:]*` take any bytes but that one, and
-- `.` takes no line terminator.
pub mod Lines
pub mod Refuses
pub mod Total
use video_server.Base.{
  ℕ, zero, suc, ◌+◌, ◌-◌, Bool, true, false, not, ◌&&◌, ◌||◌, List, [], ◌∷◌, ◌++◌, Option, none,
  some, length, get_or, take, drop, leb, ◌==◌, if◌then◌else◌,
}
use video_server.Base.Run.{Run, ok, out_of_fuel, ◌>>=◌}
use video_server.Base.Scan.{line_end}
use video_server.Base.Text.{codes, same_text, Dictionary, lookup, insert, split_at, has_byte}
use video_server.Buffer.{Buffer, readable_bytes, retrieve_until}
use video_server.Buffer.Contents.{contents}
use video_server.Http.Request.{HttpRequest, ParseState, request_line, headers, body, finish}
use video_server.Http.Request.Form.{parse_from_urlencoded}
use video_server.Http.Request.Users.{Mysql, user_verify}

abbrev pub default_html : List (List ℕ)
default_html =
    codes "/index"
    ∷ codes "/register"
    ∷ codes "/login"
    ∷ codes "/welcome"
    ∷ codes "/video"
    ∷ codes "/picture"
    ∷ []

abbrev pub default_html_tag : Dictionary ℕ
default_html_tag = (codes "/register.html", 0) ∷ (codes "/login.html", 1) ∷ []

abbrev pub is_member : List ℕ → List (List ℕ) → Bool
is_member s [] = false
is_member s (t ∷ ts) = same_text t s || is_member s ts

pub is_keep_alive : HttpRequest → Bool
is_keep_alive r = elim (lookup (codes "Connection") r.header) [
  | none ↦ false
  | some v ↦ same_text v (codes "keep-alive") && same_text r.version (codes "1.1")
]

-- `ParsePath_`
abbrev pub parse_path : List ℕ → List ℕ
parse_path path =
    if same_text path (codes "/")
    then codes "/index.html"
    else if is_member path default_html
    then path ++ codes ".html"
    else path

-- `^([^ ]*) ([^ ]*) HTTP/([^ ]*)$`
pub match_request_line : List ℕ → Option (List ℕ × (List ℕ × List ℕ))
match_request_line line = elim (split_at b' ' line) [
  | none ↦ none
  | some m ↦ elim (split_at b' ' m.1) [
    | none ↦ none
    | some p ↦
        if same_text (take 5 p.1) (codes "HTTP/") && not (has_byte b' ' (drop 5 p.1))
        then some (m.0, (p.0, drop 5 p.1))
        else none
  ]
]

-- `ParseRequestLine_`
pub parse_request_line : List ℕ → HttpRequest → Bool × HttpRequest
parse_request_line line r = elim (match_request_line line) [
  | none ↦ (false, r)
  | some m ↦ (true, record r { method = m.0; path = m.1.0; version = m.1.1; state = headers })
]

-- `^([^:]*): ?(.*)$`
pub match_header : List ℕ → Option (List ℕ × List ℕ)
match_header line = elim (split_at b':' line) [
  | none ↦ none
  | some m ↦
      let value = if get_or m.1 0 0 == b' ' then drop 1 m.1 else m.1 in
      if has_byte 10 value || has_byte 13 value then none else some (m.0, value)
]

-- `ParseHeader_`
pub parse_header : List ℕ → HttpRequest → HttpRequest
parse_header line r = elim (match_header line) [
  | none ↦ record r { state = body }
  | some m ↦ record r { header = insert m.0 m.1 r.header }
]

-- `m[k]`: a key that is missing is added.
abbrev pub subscript : List ℕ → Dictionary (List ℕ) → List ℕ × Dictionary (List ℕ)
subscript k m = elim (lookup k m) [ none ↦ ([], insert k [] m) | some v ↦ (v, m) ]

module _ (sql : Mysql) where
  open sql use {Database}

  -- The test of the tag, and what follows it.
  pub enter : HttpRequest → Database → Run (HttpRequest × Database)
  enter r db = elim (lookup r.path default_html_tag) [
    | none ↦ ok (r, db)
    | some tag ↦
        let (name, post1) = subscript (codes "username") r.post in
        let (pwd, post2) = subscript (codes "password") post1 in
        user_verify sql name pwd (tag == 1) db >>= λ (good, db'). ok (
          record r {
            post = post2;
            path = if good then codes "/welcome.html" else codes "/error.html";
          },
          db',
        )
  ]

  -- `ParsePost_`
  pub parse_post : HttpRequest → Database → Run (HttpRequest × Database)
  parse_post r db =
      let (content_type, header') = subscript (codes "Content-Type") r.header in
      let typed = record r { header = header' } in
      let entered = parse_from_urlencoded r.text r.post >>= λ g.
      enter (record typed { text = g.0; post = g.1 }) db in
      if same_text r.method (codes "POST")
      then (if same_text content_type (codes "application/x-www-form-urlencoded")
          then entered
          else ok (typed, db))
      else ok (r, db)

  -- `ParseBody_`
  pub parse_body : List ℕ → HttpRequest → Database → Run (HttpRequest × Database)
  parse_body line r db =
      parse_post (record r { text = line }) db >>= λ p. ok (record p.0 { state = finish }, p.1)

  -- The `switch` of `parse` on a line, with the count of readable bytes; false is `return false`.
  pub parse_in :
      ParseState → List ℕ → ℕ → HttpRequest → Database → Run (Bool × (HttpRequest × Database))
  parse_in request_line line readable r db =
      let (good, r') = parse_request_line line r in
      ok (good, (if good then record r' { path = parse_path r'.path } else r', db))
  parse_in headers line readable r db =
      let r' = parse_header line r in
      ok (true, (if leb readable 2 then record r' { state = finish } else r', db))
  parse_in body line readable r db = parse_body line r db >>= λ p. ok (true, p)
  parse_in finish line readable r db = ok (true, (r, db))

  abbrev pub parse_line :
      List ℕ → ℕ → HttpRequest → Database → Run (Bool × (HttpRequest × Database))
  parse_line line readable r db = parse_in r.state line readable r db

  abbrev pub is_finished : HttpRequest → Bool
  is_finished r = elim r.state [ finish ↦ true | _ ↦ false ]

  -- What a call of `parse` returns and leaves.
  pub record Parsed : Type 0 where
    pub result : Bool
    pub request : HttpRequest
    pub buffer : Buffer
    pub database : Database

  pub parse_loop : ℕ → HttpRequest → Buffer → Database → Run Parsed
  parse_loop zero r b db = out_of_fuel
  parse_loop (suc fuel) r b db =
      let text = contents b in
      let end = line_end text in
      let round : Run Parsed = do
        (good, (r', db')) ← parse_line (take end text) (readable_bytes b) r db
        let here : Parsed = record { result = good; request = r'; buffer = b; database = db' }
        let later = retrieve_until (b.read_pos + end + 2) b >>= λ b'. parse_loop fuel r' b' db'
        if not good || (end == length text) then ok here else later
      in if (readable_bytes b == 0) || is_finished r
        then ok (record { result = true; request = r; buffer = b; database = db })
        else round

  -- Each round but the last takes two bytes off the buffer at least.
  pub parse : HttpRequest → Buffer → Database → Run Parsed
  parse r b db =
      if readable_bytes b == 0
      then ok (record { result = false; request = r; buffer = b; database = db })
      else parse_loop (readable_bytes b + 1) r b db
