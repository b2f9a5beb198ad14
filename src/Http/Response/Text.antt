-- ===== src/Http/Response/Text.antt =====
-- The text of a whole reply, as `MakeResponse` leaves it in the buffer.
use video_server.Base.{
  ℕ, ◌≡◌, refl, sym, not, ◌||◌, inl, inr, List, [], ◌∷◌, ◌++◌, none, some, length, if◌then◌else◌,
  Bool-cases, Option-cases, true,
}
use video_server.Base.Run.{◌>>=◌, Ensures, ensures, Ensures-bind, Ensures-weaken}
use video_server.Base.Text.{codes}
use video_server.Buffer.{Buffer, append}
use video_server.Buffer.Contents.{contents, IsValid}
use video_server.Buffer.Refine.{Holds, append_extends}
use video_server.Http.Response.{
  Files, HttpResponse, int_to_text, to_text, crlf, get_file_type, choose_code, error_html,
  known_status, add_state_line, add_header, error_body, error_content, starts_all_ones, add_content,
  make_response,
}

-- Texts written one after the other.
abbrev pub write_all : List ℕ → List (List ℕ) → List ℕ
write_all xs [] = xs
write_all xs (p ∷ ps) = write_all (xs ++ p) ps

append_onto :
    (str xs : List ℕ) (b : Buffer) → Holds xs b → Ensures (Holds (xs ++ str)) (append str b)
append_onto str xs b h = Ensures-weaken (append_extends str b h.0) λ c k. rw (sym h.1) k

module _ (files : Files) where
  open files use {stat, opens, mmap}

  abbrev pub state_line : HttpResponse → List ℕ
  state_line r =
      codes "HTTP/1.1 "
      ++ (int_to_text (known_status files r).0.code
          ++ (codes " " ++ ((known_status files r).1 ++ crlf)))

  abbrev pub connection_lines : HttpResponse → List (List ℕ)
  connection_lines r =
      if r.keep_alive
      then (codes "keep-alive" ++ crlf) ∷ (codes "keep-alive: max=6, timeout=120" ++ crlf) ∷ []
      else (codes "close" ++ crlf) ∷ []

  -- The reply has the file's length, or the length of the error page and the page.
  abbrev pub content_texts : HttpResponse → List (List ℕ)
  content_texts r =
      let page = error_body files r (codes "File NotFound!") in
      let failed =
        (codes "Content-length: " ++ (to_text (length page) ++ (crlf ++ crlf))) ∷ page ∷ [] in
      let sent = (codes "Content-length: " ++ (to_text r.file_stat.size ++ (crlf ++ crlf))) ∷ [] in
      elim (mmap (r.src_dir ++ r.path) r.file_stat.size) [
        | none ↦ failed
        | some bytes ↦
            if not (opens (r.src_dir ++ r.path)) || starts_all_ones files bytes
            then failed
            else sent
      ]

  error_content_writes :
      (r : HttpResponse) (xs : List ℕ) (b : Buffer)
      → Holds xs b
      → (let page = error_body files r (codes "File NotFound!") in
          Ensures
            (Holds (
              (xs ++ (codes "Content-length: " ++ (to_text (length page) ++ (crlf ++ crlf))))
              ++ page))
            (error_content files r (codes "File NotFound!") b))
  unfolding error_content
  error_content_writes r xs b h =
      let page = error_body files r (codes "File NotFound!") in
      let size = codes "Content-length: " ++ (to_text (length page) ++ (crlf ++ crlf)) in
      Ensures-bind (append_onto size xs b h) λ c k. append_onto page (xs ++ size) c k

  add_state_line_writes :
      (r : HttpResponse) (xs : List ℕ) (b : Buffer)
      → Holds xs b
      → Ensures
          (λ q. (q.0 ≡ (known_status files r).0) × Holds (xs ++ state_line r) q.1)
          (add_state_line files r b)
  unfolding add_state_line
  add_state_line_writes r xs b h =
      Ensures-bind (append_onto (state_line r) xs b h) λ b' k. ensures (refl, k)

  connection_writes :
      (r : HttpResponse) (xs : List ℕ) (b : Buffer)
      → Holds xs b
      → Ensures (Holds (write_all xs (connection_lines r))) (
          if r.keep_alive
          then append (codes "keep-alive" ++ crlf) b
            >>= append (codes "keep-alive: max=6, timeout=120" ++ crlf)
          else append (codes "close" ++ crlf) b)
  connection_writes r xs b h = elim (Bool-cases r.keep_alive) [
    | inl keep ↦ rw keep (
        Ensures-bind (append_onto (codes "keep-alive" ++ crlf) xs b h) λ c k.
          append_onto (codes "keep-alive: max=6, timeout=120" ++ crlf)
            (xs ++ (codes "keep-alive" ++ crlf)) c k)
    | inr close ↦ rw close (append_onto (codes "close" ++ crlf) xs b h)
  ]

  add_header_writes :
      (r : HttpResponse) (xs : List ℕ) (b : Buffer)
      → Holds xs b
      → Ensures
          (Holds (
            write_all (xs ++ codes "Connection: ") (connection_lines r)
            ++ (codes "Content-type: " ++ (get_file_type r.path ++ crlf))))
          (add_header files r b)
  unfolding add_header
  add_header_writes r xs b h = Ensures-bind (append_onto (codes "Connection: ") xs b h) λ b1 k1.
      Ensures-bind (connection_writes r (xs ++ codes "Connection: ") b1 k1) λ b2 k2.
        append_onto (codes "Content-type: " ++ (get_file_type r.path ++ crlf))
          (write_all (xs ++ codes "Connection: ") (connection_lines r)) b2 k2

  -- The reply keeps the file that it sends mapped.
  abbrev pub content_of : HttpResponse → HttpResponse
  content_of r = elim (mmap (r.src_dir ++ r.path) r.file_stat.size) [
    | none ↦ r
    | some bytes ↦
        if not (opens (r.src_dir ++ r.path)) || starts_all_ones files bytes
        then r
        else record r { file = some bytes }
  ]

  -- If the response's file can be opened, `mmap` maps it.
  abbrev pub IsSendable : HttpResponse → Type 0
  IsSendable r =
      opens (r.src_dir ++ r.path) ≡ true
      → (bytes : List ℕ) × (mmap (r.src_dir ++ r.path) r.file_stat.size ≡ some bytes)

  add_content_writes :
      (r : HttpResponse) (xs : List ℕ) (b : Buffer)
      → Holds xs b
      → IsSendable r
      → Ensures
          (λ q. (q.0 ≡ content_of r) × Holds (write_all xs (content_texts r)) q.1)
          (add_content files r b)
  unfolding add_content
  add_content_writes r xs b h maps = elim (Bool-cases (opens (r.src_dir ++ r.path))) [
    | inr shut ↦ elim (Option-cases (mmap (r.src_dir ++ r.path) r.file_stat.size)) [
      | inl e ↦
          rw (content_texts, content_of, e, shut)
            (Ensures-bind (error_content_writes r xs b h) λ c k. ensures (refl, k))
      | inr (bytes, e) ↦
          rw (content_texts, content_of, e, shut)
            (Ensures-bind (error_content_writes r xs b h) λ c k. ensures (refl, k))
    ]
    | inl opened ↦
        let (bytes, e) = maps opened in
        elim (Bool-cases (starts_all_ones files bytes)) [
          | inl ones ↦
              rw (content_texts, content_of, e, opened, ones)
                (Ensures-bind (error_content_writes r xs b h) λ c k. ensures (refl, k))
          | inr other ↦
              rw (content_texts, content_of, e, opened, other)
                (Ensures-bind
                  (append_onto
                    (codes "Content-length: " ++ (to_text r.file_stat.size ++ (crlf ++ crlf))) xs b
                    h)
                  λ c k. ensures (refl, k))
        ]
  ]

  -- What the reply is made from: the file asked for, or an error page.
  abbrev pub answered : HttpResponse → HttpResponse
  answered r = (known_status files (error_html files (choose_code files r))).0

  -- The text of the reply, behind what is in the buffer.
  abbrev pub reply : List ℕ → HttpResponse → List ℕ
  reply xs r =
      let page = answered r in
      let begun = xs ++ state_line (error_html files (choose_code files r)) in
      write_all
        (write_all (begun ++ codes "Connection: ") (connection_lines page)
          ++ (codes "Content-type: " ++ (get_file_type page.path ++ crlf)))
        (content_texts page)

  -- `MakeResponse` writes the reply, and keeps its file mapped.
  pub make_response_serves :
      (r : HttpResponse) (b : Buffer)
      → IsValid b
      → IsSendable (answered r)
      → Ensures
          (λ q. (q.0 ≡ content_of (answered r)) × Holds (reply (contents b) r) q.1)
          (make_response files r b)
  unfolding make_response
  make_response_serves r b v maps =
      Ensures-bind
        (add_state_line_writes (error_html files (choose_code files r)) (contents b) b (v, refl))
        λ q k.
          let page = answered r in
          let begun = contents b ++ state_line (error_html files (choose_code files r)) in
          rw k.0 (
            Ensures-bind (add_header_writes page begun q.1 k.1) λ b2 k2.
              add_content_writes page
                (write_all (begun ++ codes "Connection: ") (connection_lines page)
                  ++ (codes "Content-type: " ++ (get_file_type page.path ++ crlf)))
                b2 k2 maps)

  -- `MakeResponse` adds to a valid buffer a state line, the header lines and the content of the file or
  -- error page chosen, and nothing else, without a failed assertion. The condition is that this file, if it
  -- can be opened, is mapped by `mmap` with the size that its status has.
  pub make_response_writes :
      (r : HttpResponse) (b : Buffer)
      → IsValid b
      → IsSendable (answered r)
      → Ensures (λ q. Holds (reply (contents b) r) q.1) (make_response files r b)
  make_response_writes r b v maps = Ensures-weaken (make_response_serves r b v maps) λ q k. k.1
