-- ===== src/Http/Response/Mapped.antt =====
-- The file that a response keeps mapped while it is sent.
use video_server.Base.{
  ℕ, ◌≡◌, refl, ◌∙◌, not, ◌||◌, ◌⊎◌, inl, inr, List, ◌++◌, none, some, Bool-cases, Option-cases,
}
use video_server.Http.Response.{
  Files, Stat, HttpResponse, choose_code, error_html, code_status, code_path, known_status,
  stat_file, starts_all_ones,
}
use video_server.Http.Response.Text.{answered, content_of}

module _ (files : Files) where
  open files use {stat, opens, mmap}

  known_status-file : (r : HttpResponse) → (known_status files r).0.file ≡ r.file
  known_status-file r = elim (Option-cases (code_status r.code)) [
    | inl other ↦ rw (known_status, other) refl
    | inr (s, known) ↦ rw (known_status, known) refl
  ]

  choose_code-file : (r : HttpResponse) → (choose_code files r).file ≡ r.file
  unfolding choose_code
  choose_code-file r = elim (Option-cases (stat (r.src_dir ++ r.path))) [
    | inl missing ↦ rw (missing, choose_code) refl
    | inr (s, found) ↦
        rw (found, choose_code)
          (elim (Bool-cases s.is_dir) [
            | inl dir ↦ rw dir refl
            | inr plain ↦ rw plain (elim (Bool-cases s.others_read) [
              | inl open_to ↦ rw open_to refl
              | inr shut ↦ rw shut refl
            ])
          ])
  ]

  error_html-file : (r : HttpResponse) → (error_html files r).file ≡ r.file
  unfolding error_html
  error_html-file r = elim (Option-cases (code_path r.code)) [
    | inl other ↦ rw (other, error_html) refl
    | inr (page, known) ↦
        rw (known, error_html)
          (elim (Option-cases (stat (r.src_dir ++ page))) [
            | inl missing ↦ rw (stat_file, missing) refl
            | inr (s, found) ↦ rw (stat_file, found) refl
          ])
  ]

  -- Choosing what to send maps no file.
  pub answered-file : (r : HttpResponse) → (answered files r).file ≡ r.file
  answered-file r =
      known_status-file (error_html files (choose_code files r))
      ∙ error_html-file (choose_code files r)
      ∙ choose_code-file r

  -- A file that is sent is what `mmap` gives for its size.
  pub content_of-mapped :
      (r : HttpResponse)
      → r.file ≡ none
      → ((content_of files r).file ≡ none)
        ⊎ ((bytes : List ℕ) × (((content_of files r).file ≡ some bytes)
              × (mmap
                    ((content_of files r).src_dir ++ (content_of files r).path)
                    (content_of files r).file_stat.size
                  ≡ some bytes)))
  content_of-mapped r closed = elim (Option-cases (mmap (r.src_dir ++ r.path) r.file_stat.size)) [
    | inl failed ↦ rw (content_of, failed) (inl closed)
    | inr (bytes, maps) ↦
        elim (Bool-cases (not (opens (r.src_dir ++ r.path)) || starts_all_ones files bytes)) [
          | inl none_sent ↦ rw (content_of, maps, none_sent) (inl closed)
          | inr sent ↦ rw (content_of, maps, sent) (inr (bytes, (refl, maps)))
        ]
  ]

  -- The size of a response is the one before, or one that `stat` reports.
  abbrev pub Known : HttpResponse → HttpResponse → Type 0
  Known r q =
      (q.file_stat ≡ r.file_stat)
      ⊎ ((path : List ℕ) × ((s : Stat) × ((stat path ≡ some s) × (q.file_stat ≡ s))))

  choose_code-file_stat : (r : HttpResponse) → Known r (choose_code files r)
  unfolding choose_code
  choose_code-file_stat r = elim (Option-cases (stat (r.src_dir ++ r.path))) [
    | inl missing ↦ rw (missing, choose_code) (inl refl)
    | inr (s, found) ↦ inr (
      r.src_dir ++ r.path,
      (
        s,
        (
          found,
          rw (found, choose_code)
              (elim (Bool-cases s.is_dir) [
                | inl dir ↦ rw dir refl
                | inr plain ↦ rw plain (elim (Bool-cases s.others_read) [
                  | inl open_to ↦ rw open_to refl
                  | inr shut ↦ rw shut refl
                ])
              ]),
        ),
      ),
    )
  ]

  error_html-file_stat : (r : HttpResponse) → Known r (error_html files r)
  unfolding error_html
  error_html-file_stat r = elim (Option-cases (code_path r.code)) [
    | inl other ↦ rw (other, error_html) (inl refl)
    | inr (page, known) ↦ elim (Option-cases (stat (r.src_dir ++ page))) [
      | inl missing ↦ inl (rw (known, error_html, stat_file, missing) refl)
      | inr (s, found) ↦
          inr (r.src_dir ++ page, (s, (found, rw (known, error_html, stat_file, found) refl)))
    ]
  ]

  known_status-file_stat : (r : HttpResponse) → (known_status files r).0.file_stat ≡ r.file_stat
  known_status-file_stat r = elim (Option-cases (code_status r.code)) [
    | inl other ↦ rw (known_status, other) refl
    | inr (s, known) ↦ rw (known_status, known) refl
  ]

  pub answered-file_stat : (r : HttpResponse) → Known r (answered files r)
  answered-file_stat r =
      let kept = known_status-file_stat (error_html files (choose_code files r)) in
      elim (error_html-file_stat (choose_code files r)) [
        | inr (page, (s, (found, same))) ↦ inr (page, (s, (found, kept ∙ same)))
        | inl same ↦ elim (choose_code-file_stat r) [
          | inl first ↦ inl (kept ∙ same ∙ first)
          | inr (path, (s, (found, first))) ↦ inr (path, (s, (found, kept ∙ same ∙ first)))
        ]
      ]

  pub content_of-file_stat : (r : HttpResponse) → (content_of files r).file_stat ≡ r.file_stat
  content_of-file_stat r = elim (Option-cases (mmap (r.src_dir ++ r.path) r.file_stat.size)) [
    | inl failed ↦ rw (content_of, failed) refl
    | inr (bytes, maps) ↦
        elim (Bool-cases (not (opens (r.src_dir ++ r.path)) || starts_all_ones files bytes)) [
          | inl none_sent ↦ rw (content_of, maps, none_sent) refl
          | inr sent ↦ rw (content_of, maps, sent) refl
        ]
  ]

  -- The size is that of the file that the path names, unless there is none.
  abbrev pub Named : HttpResponse → Type 0
  Named q = (stat (q.src_dir ++ q.path) ≡ some q.file_stat) ⊎ (stat (q.src_dir ++ q.path) ≡ none)

  stat_file-Named : (r : HttpResponse) → Named (stat_file files r)
  stat_file-Named r = elim (Option-cases (stat (r.src_dir ++ r.path))) [
    | inl missing ↦ rw (stat_file, missing) (inr missing)
    | inr (s, found) ↦ rw (stat_file, found) (inl found)
  ]

  error_html-Named : (r : HttpResponse) → Named r → Named (error_html files r)
  unfolding error_html
  error_html-Named r h = elim (Option-cases (code_path r.code)) [
    | inl other ↦ rw (other, error_html) h
    | inr (page, known) ↦ rw (known, error_html) (stat_file-Named (record r { path = page }))
  ]

  choose_code-Named : (r : HttpResponse) → Named (choose_code files r)
  unfolding choose_code
  choose_code-Named r = elim (Option-cases (stat (r.src_dir ++ r.path))) [
    | inl missing ↦ rw (missing, choose_code) (inr missing)
    | inr (s, found) ↦
        rw (found, choose_code)
          (elim (Bool-cases s.is_dir) [
            | inl dir ↦ simp dir (inl found)
            | inr plain ↦ simp plain (elim (Bool-cases s.others_read) [
              | inl open_to ↦ simp open_to (inl found)
              | inr shut ↦ simp shut (inl found)
            ])
          ])
  ]

  known_status-Named : (r : HttpResponse) → Named r → Named (known_status files r).0
  known_status-Named r h = elim (Option-cases (code_status r.code)) [
    | inl other ↦ rw (known_status, other) h
    | inr (s, known) ↦ rw (known_status, known) h
  ]

  pub answered-Named : (r : HttpResponse) → Named (answered files r)
  answered-Named r =
      known_status-Named (error_html files (choose_code files r))
        (error_html-Named (choose_code files r) (choose_code-Named r))
