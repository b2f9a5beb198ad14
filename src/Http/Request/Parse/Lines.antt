-- ===== src/Http/Request/Parse/Lines.antt =====
-- Request lines and header lines, written as a client writes them.
use video_server.Base.{ℕ, ◌≡◌, refl, true, false, List, ◌∷◌, ◌++◌}
use video_server.Base.Text.{codes, has_byte, insert, split_at-append}
use video_server.Http.Request.{HttpRequest, headers}
use video_server.Http.Request.Parse.{
  match_request_line, parse_request_line, match_header, parse_header,
}

-- `M P HTTP/V`
abbrev pub request_line_of : List ℕ → List ℕ → List ℕ → List ℕ
request_line_of method path version = method ++ b' ' ∷ (path ++ b' ' ∷ (codes "HTTP/" ++ version))

-- `K: V`
abbrev pub header_of : List ℕ → List ℕ → List ℕ
header_of key value = key ++ b':' ∷ b' ' ∷ value

-- A request line of a method, a path and a version without spaces is accepted, and the three parts
-- are found in the request, which goes on to the headers with all else as it was.
pub parse_request_line-request_line_of :
    (method path version : List ℕ) (r : HttpRequest)
    → has_byte b' ' method ≡ false
    → has_byte b' ' path ≡ false
    → has_byte b' ' version ≡ false
    → parse_request_line (request_line_of method path version) r
      ≡ (true, record r { method = method; path = path; version = version; state = headers })
unfolding parse_request_line match_request_line
parse_request_line-request_line_of method path version r m p v =
    rw
      (
        split_at-append b' ' method (path ++ b' ' ∷ (codes "HTTP/" ++ version)) m,
        split_at-append b' ' path (codes "HTTP/" ++ version) p,
        v,
        match_request_line,
        parse_request_line,
      )
      refl

-- A header line whose key has no colon and whose value no line terminator sets that key to that
-- value, without the space between them, and changes nothing else.
pub parse_header-header_of :
    (key value : List ℕ) (r : HttpRequest)
    → has_byte b':' key ≡ false
    → has_byte 10 value ≡ false
    → has_byte 13 value ≡ false
    → parse_header (header_of key value) r ≡ record r { header = insert key value r.header }
unfolding parse_header match_header
parse_header-header_of key value r k n c =
    rw (split_at-append b':' key (b' ' ∷ value) k, n, c, match_header, parse_header) refl
