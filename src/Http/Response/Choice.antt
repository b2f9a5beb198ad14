-- ===== src/Http/Response/Choice.antt =====
-- The status code of a reply, and the type of its file.
use video_server.Base.{
  ℕ, ◌≡◌, refl, Bool, true, false, not, inl, inr, List, [], ◌∷◌, ◌++◌, Option, none, some, arith,
  ◌==◌, if◌then◌else◌, Bool-cases, Option-cases,
}
use video_server.Base.Int.{ℤ, pos, negsuc}
use video_server.Base.Text.{codes, has_byte, lookup}
use video_server.Http.Response.{
  Files, Stat, HttpResponse, code_status, code_path, last_suffix, suffix_type, get_file_type,
  choose_code, error_html, default_code, known_status, stat_file,
}
use video_server.Http.Response.Text.{answered}

abbrev pub is_known : ℤ → Bool
is_known code = elim (code_status code) [ none ↦ false | some s ↦ true ]

-- The code for what `stat` says of the file, and the code asked for, where -1 asks for none.
abbrev pub code_for : Option Stat → ℤ → ℤ
code_for none code = pos 404
code_for (some s) code =
    if s.is_dir then pos 404 else if not s.others_read then pos 403 else elim code [
      | negsuc n ↦ if n == 0 then pos 200 else pos 400
      | pos n ↦ if is_known (pos n) then pos n else pos 400
    ]

module _ (files : Files) where
  open files use {stat}

  known_code :
      (r : HttpResponse)
      → (known_status files r).0.code ≡ (if is_known r.code then r.code else pos 400)
  known_code r = elim (Option-cases (code_status r.code)) [
    | inl e ↦ rw (e, known_status, is_known) refl
    | inr (s, e) ↦ rw (e, known_status, is_known) refl
  ]

  error_html_code : (r : HttpResponse) → (error_html files r).code ≡ r.code
  unfolding error_html
  error_html_code r = elim (Option-cases (code_path r.code)) [
    | inl e ↦ rw (e, error_html) refl
    | inr (page, e) ↦ rw (e, error_html) (kept (record r { path = page }))
  ]
    where
      kept : (r' : HttpResponse) → (stat_file files r').code ≡ r'.code
      kept r' = elim (Option-cases (stat (r'.src_dir ++ r'.path))) [
        | inl e ↦ rw (e, stat_file) refl
        | inr (s, e) ↦ rw (e, stat_file) refl
      ]

  -- The code before an unknown one is replaced.
  abbrev checked : ℤ → ℤ
  checked c = if is_known c then c else pos 400

  chosen_code : (r : HttpResponse) → (answered files r).code ≡ checked (choose_code files r).code
  chosen_code r =
      rw
        (known_code (error_html files (choose_code files r)), error_html_code (choose_code files r))
        refl

  by_code :
      (c : ℤ)
      → checked (default_code files c) ≡ (elim c [
        | negsuc n ↦ if n == 0 then pos 200 else pos 400
        | pos n ↦ if is_known (pos n) then pos n else pos 400
      ])
  by_code (pos n) = refl
  by_code (negsuc n) = elim (Bool-cases (n == 0)) [ inl e ↦ rw e refl | inr e ↦ rw e refl ]

  -- The code of a reply is 404 for a file that is missing or a directory, 403 for one that others may
  -- not read, and else the one asked for, 200 if it is -1, and 400 if it is unknown.
  pub answered_code :
      (r : HttpResponse) → (answered files r).code ≡ code_for (stat (r.src_dir ++ r.path)) r.code
  unfolding choose_code
  answered_code r = rw (chosen_code r) (elim (Option-cases (stat (r.src_dir ++ r.path))) [
    | inl e ↦ rw (e, choose_code) refl
    | inr (s, e) ↦ elim (Bool-cases s.is_dir) [
      | inl dir ↦ rw (e, choose_code, dir) refl
      | inr file ↦ elim (Bool-cases s.others_read) [
        | inr closed ↦ rw (e, choose_code, file, closed) refl
        | inl readable ↦ rw (e, choose_code, file, readable) (by_code r.code)
      ]
    ]
  ])

last_suffix-none : (s : List ℕ) → has_byte b'.' s ≡ false → last_suffix s ≡ none
last_suffix-none [] h = refl
last_suffix-none (c ∷ s) h = ground (arith, last_suffix-none s)

last_suffix-append :
    (s ext : List ℕ) → has_byte b'.' ext ≡ false → last_suffix (s ++ b'.' ∷ ext) ≡ some (b'.' ∷ ext)
last_suffix-append [] ext h = rw (last_suffix-none ext h) refl
last_suffix-append (c ∷ s) ext h = rw (last_suffix-append s ext h) refl

-- The type of a file is that of the suffix from its path's last dot on, and `text/plain` if the table
-- has no such suffix, or the path no dot.
pub get_file_type-append :
    (s ext : List ℕ)
    → has_byte b'.' ext ≡ false
    → (get_file_type (s ++ b'.' ∷ ext)
        ≡ (elim (lookup (b'.' ∷ ext) suffix_type) [ none ↦ codes "text/plain" | some t ↦ t ]))
      × (get_file_type ext ≡ codes "text/plain")
unfolding get_file_type
get_file_type-append s ext h = (
  rw (last_suffix-append s ext h, get_file_type) refl,
  rw (last_suffix-none ext h, get_file_type) refl,
)
