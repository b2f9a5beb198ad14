-- ===== src/Conn/Process/Http.antt =====
-- An HTTP request and its reply: what `write` sends is what `MakeResponse` wrote, and then the file.
use video_server.Base.{
  ℕ, ◌^◌, ◌<◌, ◌≡◌, refl, ap, ◌∙◌, ◌⊎◌, inl, inr, false, List, [], ◌++◌, none, some, arith, length,
  ltb, take, true, ◌==◌, Bool-cases, take-length,
}
use video_server.Base.Run.{ok, Ensures, ensures, Ensures-bind, Ensures-value}
use video_server.Base.Scan.{line_end, find_word}
use video_server.Base.Text.{codes, has_byte}
use video_server.Buffer.{readable_bytes}
use video_server.Buffer.Contents.{contents, IsValid}
use video_server.Conn.{ServerConn, http}
use video_server.Conn.Io.Ready.{IsReady, pending}
use video_server.Conn.Process.{
  World, protocol_words, match_protocol, response_for, aim, process_http_request, by_protocol,
  process,
}
use video_server.Http.Request.{initial}
use video_server.Http.Request.Parse.{Parsed, parse}
use video_server.Http.Request.Parse.Total.{parse_reads}
use video_server.Http.Response.{Files, Stat, HttpResponse}
use video_server.Http.Response.Mapped.{
  answered-file, answered-file_stat, answered-Named, content_of-mapped, content_of-file_stat,
}
use video_server.Http.Response.Text.{answered, content_of, IsSendable, reply, make_response_serves}

-- The bytes of the file that goes with a response.
abbrev pub body_of : HttpResponse → List ℕ
body_of r = elim r.file [ none ↦ [] | some bytes ↦ bytes ]

-- A response whose file is as long as it says.
abbrev pub Sized : HttpResponse → Type 0
Sized r =
    (r.file ≡ none)
    ⊎ ((bytes : List ℕ) × ((r.file ≡ some bytes)
          × ((length bytes ≡ r.file_stat.size) × (length bytes < 2 ^ 64))))

-- A file that can be opened is there, with at least one byte, and `mmap` maps it whole; a mapping has the
-- size that was asked for, and sizes are less than 2^64.
pub record IsMapped (files : Files) : Type 0 where
  pub found : (path : List ℕ) → files.opens path ≡ true → (s : Stat) × (files.stat path ≡ some s)
  pub filled :
      (path : List ℕ) (s : Stat) → files.opens path ≡ true → files.stat path ≡ some s → 0 < s.size
  pub maps :
      (path : List ℕ) (s : Stat)
      → files.opens path ≡ true
      → files.stat path ≡ some s
      → 0 < s.size
      → (bytes : List ℕ) × (files.mmap path s.size ≡ some bytes)
  pub sizes :
      (path : List ℕ) (n : ℕ) (bytes : List ℕ) → files.mmap path n ≡ some bytes → length bytes ≡ n
  pub small : (path : List ℕ) (s : Stat) → files.stat path ≡ some s → s.size < 2 ^ 64

-- The files are mapped, and the pool has a connection to the database for every call of `UserVerify`.
pub record IsProvided (world : World) : Type 1 where
  pub mapped : IsMapped world.files
  pub connected : (db : world.sql.Database) → world.sql.connects db ≡ true

module _ (world : World) where
  open world use {files, sql}

  aim_points :
      (r : HttpResponse) (c : ServerConn)
      → IsValid c.write_buff
      → Sized r
      → IsReady (aim world r c)
        × ((pending (aim world r c) ≡ contents c.write_buff ++ body_of r)
            × ((aim world r c).read_buff ≡ c.read_buff))
  unfolding aim
  aim_points r c v (inl closed) = rw closed (
    record { valid = v; sized = refl; placed = inr refl; filed = inl refl; small = omega arith },
    (refl, refl),
  )
  aim_points r c v (inr (bytes, (file, (size, small)))) =
      rw file (elim (Bool-cases (ltb 0 r.file_stat.size)) [
        | inl some_bytes ↦ rw some_bytes (
          record {
            valid = v;
            sized = refl;
            placed = inr refl;
            filed = inr (omega (arith, size));
            small = small;
          },
          (
            ap (λ t. contents c.write_buff ++ t)
                (take-length r.file_stat.size bytes (omega (arith, size))),
            refl,
          ),
        )
        | inr no_bytes ↦ rw no_bytes (
          record { valid = v; sized = refl; placed = inr refl; filed = inl refl; small = small },
          (
            ap (λ t. contents c.write_buff ++ t)
                (take-length 0 bytes (ground (arith, size, no_bytes))),
            refl,
          ),
        )
      ])

  answer_small :
      (p : Parsed sql)
      → IsMapped files
      → (answered files (response_for world p)).file_stat.size < 2 ^ 64
  answer_small p mapped =
      let unknown : (response_for world p).file_stat.size ≡ 0 = elim (Bool-cases p.result) [
        | inl good ↦ rw good refl
        | inr bad ↦ rw bad refl
      ] in
      elim (answered-file_stat files (response_for world p)) [
        | inl same ↦ rw (same, unknown) (omega arith)
        | inr (path, (s, (found, same))) ↦ rw same (mapped.small path s found)
      ]

  answer-Sized :
      (p : Parsed sql)
      → IsMapped files
      → Sized (content_of files (answered files (response_for world p)))
  answer-Sized p mapped =
      let page = answered files (response_for world p) in
      let closed : (response_for world p).file ≡ none = elim (Bool-cases p.result) [
        | inl good ↦ rw good refl
        | inr bad ↦ rw bad refl
      ] in
      elim (content_of-mapped files page (answered-file files (response_for world p) ∙ closed)) [
        | inl same ↦ inl same
        | inr (bytes, (file, maps)) ↦
            let size = mapped.sizes _ _ bytes maps in
            let small = answer_small p mapped in
            let kept = ap (λ x. x.size) (content_of-file_stat files page) in
            inr (bytes, (file, (size, omega (arith, size, small, kept))))
      ]

  answer-IsSendable :
      (p : Parsed sql) → IsMapped files → IsSendable files (answered files (response_for world p))
  answer-IsSendable p mapped opened =
      let page = answered files (response_for world p) in
      let (s, there) = mapped.found (page.src_dir ++ page.path) opened in
      elim (answered-Named files (response_for world p)) [
        | inl named ↦
            mapped.maps (page.src_dir ++ page.path) page.file_stat opened named
              (mapped.filled (page.src_dir ++ page.path) page.file_stat opened named)
        | inr missing ↦ absurd (ground (arith, there, missing))
      ]

  -- The reply to what `parse` made of the request, and the file with it.
  abbrev pub reply_to : ServerConn → Parsed sql → List ℕ
  reply_to c p =
      reply files (contents c.write_buff) (response_for world p)
      ++ body_of (content_of files (answered files (response_for world p)))

  -- The connection is ready to send the reply to what `parse` made of the request.
  pub record IsReplied (c : ServerConn) (db : sql.Database) (p : Parsed sql)
      (d : ServerConn × sql.Database) : Type 0 where
    pub parsed : parse sql initial c.read_buff db ≡ ok p
    pub ready : IsReady d.0
    pub sends : pending d.0 ≡ reply_to c p
    pub input : d.0.read_buff ≡ p.buffer
    pub database : d.1 ≡ p.database

  pub process_http_request_replies :
      (c : ServerConn) (db : sql.Database)
      → IsValid c.read_buff
      → IsValid c.write_buff
      → has_byte b'%' (contents c.read_buff) ≡ false
      → IsProvided world
      → Ensures (λ d. (p : Parsed sql) × IsReplied c db p d) (process_http_request world c db)
  unfolding process_http_request
  process_http_request_replies c db vr vw none_here given =
      let (p, e, k) =
        Ensures-value (parse_reads sql given.connected initial c.read_buff db vr none_here) in
      rw (e, process_http_request)
        (Ensures-bind
          (make_response_serves files (response_for world p) c.write_buff vw
            (answer-IsSendable p given.mapped))
          (λ (r, b) (same, (v, text)).
            let d = record c { request = p.request; read_buff = p.buffer; write_buff = b } in
            let aimed = aim_points r d v (rw same (answer-Sized p given.mapped)) in
            ensures (
              p,
              record {
                parsed = e;
                ready = aimed.0;
                sends = aimed.1.0 ∙ rw (text, same) refl;
                input = aimed.1.1;
                database = refl;
              },
            )))

  by_http :
      (c : ServerConn) (db : sql.Database) (line : List ℕ)
      → IsValid c.read_buff
      → IsValid c.write_buff
      → has_byte b'%' (contents c.read_buff) ≡ false
      → IsProvided world
      → Ensures
          (λ q. (p : Parsed sql) × IsReplied c db p (q.0, q.1.0))
          (by_protocol world http line c db)
  by_http c db line vr vw plain given =
      Ensures-bind (process_http_request_replies c db vr vw plain given) (λ d k. ensures k)

  -- `process` of bytes whose first line names HTTP is `processHttpRequest`.
  pub process_replies :
      (c : ServerConn) (db : sql.Database)
      → IsValid c.read_buff
      → IsValid c.write_buff
      → has_byte b'%' (contents c.read_buff) ≡ false
      → (readable_bytes c.read_buff == 0) ≡ false
      → find_word protocol_words (take (line_end (contents c.read_buff)) (contents c.read_buff))
        ≡ some (codes "HTTP")
      → IsProvided world
      → Ensures
          (λ q. (q.0 ≡ true) × ((p : Parsed sql) × IsReplied c db p (q.1.0, q.1.1.0)))
          (process world c db)
  unfolding process
  process_replies c db vr vw plain some_bytes names given =
      let line = take (line_end (contents c.read_buff)) (contents c.read_buff) in
      let named : match_protocol line c.protocol ≡ http = rw (match_protocol, names) refl in
      rw (some_bytes, named)
        (Ensures-bind (by_http (record c { protocol = http }) db line vr vw plain given)
          (λ q (p, k). ensures (
            refl,
            (
              p,
              record {
                parsed = k.parsed;
                ready = k.ready;
                sends = k.sends;
                input = k.input;
                database = k.database;
              },
            ),
          )))
