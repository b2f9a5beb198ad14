-- ===== src/Http/Request/Parse/Total.antt =====
-- `parse` ends, and takes from the buffer only what it has read.
use video_server.Base.{
  ℕ, zero, suc, ◌+◌, ◌-◌, ◌≤◌, ◌<◌, ◌≡◌, refl, sym, ap, ◌∙◌, Bool, true, false, not, ◌||◌, ◌⊎◌,
  Option-cases, inl, inr, List, [], arith, length, take, drop, leb, ◌==◌, if◌then◌else◌, Bool-cases,
  drop-sum, length-drop,
}
use video_server.Base.Run.{ok, ◌>>=◌, Ensures, ensures, Ensures-bind, Ensures-weaken}
use video_server.Buffer.{Buffer, readable_bytes, retrieve_until}
use video_server.Buffer.Contents.{contents, IsValid, length-slice}
use video_server.Buffer.Refine.{retrieve_until_drops}
use video_server.Http.Request.{HttpRequest, ParseState, request_line, headers, body, finish}
use video_server.Base.Scan.{has_byte-take, has_byte-drop, line_end, line_end_break}
use video_server.Base.Text.{codes, same_text, has_byte, lookup}
use video_server.Http.Request.Form.Ends.{has_byte-NoPercent, parse_from_urlencoded_ends}
use video_server.Http.Request.Users.{Mysql, user_verify-Ensures}
use video_server.Http.Request.Parse.{
  subscript, parse_request_line, parse_header, Parsed, parse, parse_loop, parse_in, parse_body,
  enter, default_html_tag, parse_post, is_finished, match_request_line, match_header,
}

-- The line that a state has is behind the request line.
abbrev pub is_begun : HttpRequest → Bool
is_begun r = elim r.state [ request_line ↦ false | _ ↦ true ]

module _ (sql : Mysql) (connected : (db : sql.Database) → sql.connects db ≡ true) where
  open sql use {Database}

  enter_ends : (r : HttpRequest) (db : Database) → Ensures (λ p. Unit {0}) (enter sql r db)
  unfolding enter
  enter_ends r db = elim (Option-cases (lookup r.path default_html_tag)) [
    | inl other ↦ rw (other, enter) (ensures tt)
    | inr (tag, e) ↦
        rw (e, enter)
          (Ensures-bind (user_verify-Ensures sql connected _ _ (tag == 1) db) λ p u. ensures tt)
  ]

  parse_post_ends :
      (r : HttpRequest) (db : Database)
      → has_byte b'%' r.text ≡ false
      → Ensures (λ p. Unit {0}) (parse_post sql r db)
  unfolding parse_post
  parse_post_ends r db none_here = elim (Bool-cases (same_text r.method (codes "POST"))) [
    | inr other ↦ rw other (ensures tt)
    | inl post ↦
        rw post
          (elim (Bool-cases (
            same_text (subscript (codes "Content-Type") r.header).0
              (codes "application/x-www-form-urlencoded"))) [
                | inr other ↦ rw other (ensures tt)
                | inl form ↦ rw form (
                    Ensures-bind
                      (parse_from_urlencoded_ends r.text r.post
                        (has_byte-NoPercent r.text none_here))
                      λ g u. enter_ends _ db)
              ])
  ]

  -- A line leaves the request begun; if it is refused it was the first, and nothing has changed.
  abbrev pub LineRead : HttpRequest → Database → Bool × (HttpRequest × Database) → Type 0
  LineRead r db (good, (r', db')) =
      ((good ≡ true) × (is_begun r' ≡ true))
      ⊎ ((good ≡ false) × ((is_begun r ≡ false) × ((r' ≡ r) × (db' ≡ db))))

  first_line_reads :
      (line : List ℕ) (r : HttpRequest)
      → (((parse_request_line line r).0 ≡ true) × (is_begun (parse_request_line line r).1 ≡ true))
        ⊎ (((parse_request_line line r).0 ≡ false) × ((parse_request_line line r).1 ≡ r))
  unfolding parse_request_line
  first_line_reads line r = elim (Option-cases (match_request_line line)) [
    | inl bad ↦ rw (bad, parse_request_line) (inr (refl, refl))
    | inr (m, good) ↦ rw (good, parse_request_line) (inl (refl, refl))
  ]

  parse_header-begun :
      (line : List ℕ) (r : HttpRequest) → is_begun r ≡ true → is_begun (parse_header line r) ≡ true
  unfolding parse_header
  parse_header-begun line r h = elim (Option-cases (match_header line)) [
    | inl other ↦ rw (other, parse_header) refl
    | inr (m, e) ↦ rw (e, parse_header) h
  ]

  parse_body_begun :
      (line : List ℕ) (r : HttpRequest) (db : Database)
      → has_byte b'%' line ≡ false
      → Ensures (λ q. is_begun q.0 ≡ true) (parse_body sql line r db)
  unfolding parse_body
  parse_body_begun line r db none_here =
      Ensures-bind (parse_post_ends (record r { text = line }) db none_here) λ p u. ensures refl

  parse_in_reads :
      (s : ParseState) (line : List ℕ) (readable : ℕ) (r : HttpRequest) (db : Database)
      → r.state ≡ s
      → has_byte b'%' line ≡ false
      → Ensures (LineRead r db) (parse_in sql s line readable r db)
  unfolding parse_in
  parse_in_reads request_line line readable r db e none_here = elim (first_line_reads line r) [
    | inl (good, begun) ↦ ensures (inl (good, rw good begun))
    | inr (bad, same) ↦ ensures (inr (bad, (rw (e, is_begun) refl, (rw bad same, refl))))
  ]
  parse_in_reads headers line readable r db e none_here = elim (Bool-cases (leb readable 2)) [
    | inl final ↦ rw final (ensures (inl (refl, refl)))
    | inr further ↦
        rw further (ensures (inl (refl, parse_header-begun line r (rw (e, is_begun) refl))))
  ]
  parse_in_reads body line readable r db e none_here =
      Ensures-bind (parse_body_begun line r db none_here) λ q begun. ensures (inl (refl, begun))
  parse_in_reads finish line readable r db e none_here = ensures (inl (refl, rw (e, is_begun) refl))

  -- True is returned, and the buffer has lost bytes at its front only.
  abbrev pub Read : Buffer → Parsed sql → Type 0
  Read b p =
      (p.result ≡ true) × (IsValid p.buffer × ((n : ℕ) × (contents p.buffer ≡ drop n (contents b))))

  -- False is returned to a request that has not begun, and nothing has changed.
  abbrev pub Refused : HttpRequest → Buffer → Database → Parsed sql → Type 0
  Refused r b db p =
      (is_begun r ≡ false)
      × ((p.result ≡ false) × ((p.request ≡ r) × ((p.buffer ≡ b) × (p.database ≡ db))))

  Read-later :
      (n : ℕ) (r : HttpRequest) (b b' : Buffer) (db : Database) (p : Parsed sql)
      → contents b' ≡ drop n (contents b)
      → is_begun r ≡ true
      → Read b' p ⊎ Refused r b' db p
      → Read b p
  Read-later n r b b' db p e begun (inl (good, (v, (m, f)))) =
      (good, (v, (n + m, f ∙ ap (drop m) e ∙ sym (drop-sum n m (n + m) (contents b) refl))))
  Read-later n r b b' db p e begun (inr refused) = absurd (ground (arith, refused.0, begun))

  parse_loop_reads :
      (fuel : ℕ) (r : HttpRequest) (b : Buffer) (db : Database)
      → length (contents b) < fuel
      → IsValid b
      → has_byte b'%' (contents b) ≡ false
      → Ensures (λ p. Read b p ⊎ Refused r b db p) (parse_loop sql fuel r b db)
  unfolding parse_loop
  parse_loop_reads zero r b db enough v none_here = absurd (omega arith)
  parse_loop_reads (suc fuel) r b db enough v none_here =
      let text = contents b in
      let end = line_end text in
      elim (Bool-cases ((readable_bytes b == 0) || is_finished sql r)) [
        | inl over ↦ rw over (ensures (inl (refl, (v, (0, refl)))))
        | inr open_still ↦ rw open_still (
            Ensures-bind
              (parse_in_reads r.state (take end text) (readable_bytes b) r db refl
                (has_byte-take b'%' end text none_here))
              (after λ r' b' db' e w none_left. parse_loop_reads fuel r' b' db' e w none_left))
      ]
    where
      next :
          ((r' : HttpRequest) (b' : Buffer) (db' : Database)
            → length (contents b') < fuel
            → IsValid b'
            → has_byte b'%' (contents b') ≡ false
            → Ensures (λ p. Read b' p ⊎ Refused r' b' db' p) (parse_loop sql fuel r' b' db'))
          → (q : Bool × (HttpRequest × Database)) → is_begun q.1.0 ≡ true
          → (line_end (contents b) == length (contents b)) ≡ false
          → Ensures
              (λ p. Read b p ⊎ Refused r b db p)
              (retrieve_until (b.read_pos + line_end (contents b) + 2) b >>= λ b'.
                parse_loop sql fuel q.1.0 b' q.1.1)
      next later q begun part =
          let n = line_end (contents b) + 2 in
          let fits : n ≤ length (contents b) = line_end_break (contents b) part in
          rw (let e : b.read_pos + line_end (contents b) + 2 ≡ b.read_pos + n = omega arith in e) (
            Ensures-bind (retrieve_until_drops n b v fits) λ b' h.
              Ensures-weaken
                (later q.1.0 b' q.1.1 (omega (arith, ap length h.1, length-drop n (contents b))) h.0
                  (rw h.1 (has_byte-drop b'%' n (contents b) none_here)))
                λ p read. inl (Read-later n q.1.0 b b' q.1.1 p h.1 begun read))

      after :
          ((r' : HttpRequest) (b' : Buffer) (db' : Database)
            → length (contents b') < fuel
            → IsValid b'
            → has_byte b'%' (contents b') ≡ false
            → Ensures (λ p. Read b' p ⊎ Refused r' b' db' p) (parse_loop sql fuel r' b' db'))
          → (q : Bool × (HttpRequest × Database)) → LineRead r db q
          → Ensures
              (λ p. Read b p ⊎ Refused r b db p)
              (if not q.0 || (line_end (contents b) == length (contents b))
                then ok (record { result = q.0; request = q.1.0; buffer = b; database = q.1.1 })
                else retrieve_until (b.read_pos + line_end (contents b) + 2) b >>= λ b'.
                    parse_loop sql fuel q.1.0 b' q.1.1)
      after later q (inr (bad, (fresh, (same, same_db)))) =
          rw bad (ensures (inr (fresh, (refl, (same, (refl, same_db))))))
      after later q (inl (good, begun)) =
          rw good (elim (Bool-cases (line_end (contents b) == length (contents b))) [
            | inl whole ↦ rw whole (ensures (inl (refl, (v, (0, refl)))))
            | inr part ↦ rw part (next later q begun part)
          ])

  -- Without a `%` among the readable bytes, and with a connection to the database for every call, `parse` on a valid buffer returns: true, with a valid
  -- buffer that has lost bytes at its front only, or false, with nothing changed, and false only to a
  -- request that is still at its first line or if nothing is readable.
  pub parse_reads :
      (r : HttpRequest) (b : Buffer) (db : Database)
      → IsValid b
      → has_byte b'%' (contents b) ≡ false
      → Ensures
          (λ p.
            Read b p
            ⊎ (((is_begun r ≡ false) ⊎ (contents b ≡ []))
                × ((p.result ≡ false) × ((p.request ≡ r) × ((p.buffer ≡ b) × (p.database ≡ db))))))
          (parse sql r b db)
  unfolding parse
  parse_reads r b db v none_here = elim (Bool-cases (readable_bytes b == 0)) [
    | inl nothing ↦
        rw nothing (ensures (inr (inr (empty_contents b v nothing), (refl, (refl, (refl, refl))))))
    | inr more ↦ rw more (
        Ensures-weaken
          (parse_loop_reads (readable_bytes b + 1) r b db
            (omega (arith, length-slice b.read_pos b.write_pos b.bytes v.inside)) v none_here)
          λ p c. result p c)
  ]
    where
      empty_contents : (c : Buffer) → IsValid c → (readable_bytes c == 0) ≡ true → contents c ≡ []
      empty_contents c w e =
          let none_left : c.write_pos - c.read_pos ≡ 0 = ground arith in rw none_left refl

      result :
          (p : Parsed sql)
          → Read b p ⊎ Refused r b db p
          → Read b p
            ⊎ (((is_begun r ≡ false) ⊎ (contents b ≡ []))
                × ((p.result ≡ false) × ((p.request ≡ r) × ((p.buffer ≡ b) × (p.database ≡ db)))))
      result p (inl read) = inl read
      result p (inr (fresh, same)) = inr (inl fresh, same)
