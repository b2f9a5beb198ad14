-- ===== src/Http/Response.antt =====
-- code/http/httpresponse.h and httpresponse.cpp: the status, the headers and the file of a reply.
-- The file system is a parameter. `stat` on a failure leaves the struct as it was. If `mmap` fails,
-- `*mmRet` reads from address -1, which ends the program: the model aborts there.
pub mod Text
pub mod Mapped
pub mod Choice
mod Tests
use Prim.Native.Nat.{compare, Ordering}
use video_server.Base.{
  ℕ, zero, suc, ◌+◌, ◌/◌, ◌%◌, Bool, true, false, not, ◌&&◌, ◌||◌, List, [], ◌∷◌, ◌++◌, Option,
  none, some, length, get_or, ◌==◌, if◌then◌else◌,
}
use video_server.Base.Int.{ℤ, pos, negsuc}
use video_server.Base.Run.{Run, ok, abort, ◌>>=◌}
use video_server.Base.Text.{codes, Dictionary, lookup}
use video_server.Buffer.{Buffer, append}

-- What the code reads of `struct stat`: the size, whether it is a directory, and `S_IROTH`.
pub record Stat : Type 0 where
  pub size : ℕ
  pub is_dir : Bool
  pub others_read : Bool

pub record Files : Type 0 where
  -- `none` is a result below 0.
  pub stat : List ℕ → Option Stat
  pub opens : List ℕ → Bool
  -- The bytes that `mmap` of the file's size makes visible; `none` is `MAP_FAILED`.
  pub mmap : List ℕ → ℕ → Option (List ℕ)

pub record HttpResponse : Type 0 where
  pub code : ℤ
  pub keep_alive : Bool
  pub path : List ℕ
  pub src_dir : List ℕ
  pub file : Option (List ℕ)
  pub file_stat : Stat

abbrev pub no_stat : Stat
no_stat = record { size = 0; is_dir = false; others_read = false }

-- `Init`, after its `assert`: a file that was mapped is unmapped.
abbrev pub init_response : List ℕ → List ℕ → Bool → ℤ → HttpResponse
init_response src_dir path keep_alive code = record {
  code = code;
  keep_alive = keep_alive;
  path = path;
  src_dir = src_dir;
  file = none;
  file_stat = no_stat;
}

-- `UnmapFile`
abbrev pub unmap_file : HttpResponse → HttpResponse
unmap_file r = record r { file = none }

abbrev pub suffix_type : Dictionary (List ℕ)
suffix_type =
    (codes ".html", codes "text/html")
    ∷ (codes ".xml", codes "text/xml")
    ∷ (codes ".xhtml", codes "application/xhtml+xml")
    ∷ (codes ".txt", codes "text/plain")
    ∷ (codes ".rtf", codes "application/rtf")
    ∷ (codes ".pdf", codes "application/pdf")
    ∷ (codes ".word", codes "application/nsword")
    ∷ (codes ".png", codes "image/png")
    ∷ (codes ".gif", codes "image/gif")
    ∷ (codes ".jpg", codes "image/jpeg")
    ∷ (codes ".jpeg", codes "image/jpeg")
    ∷ (codes ".au", codes "audio/basic")
    ∷ (codes ".mpeg", codes "video/mpeg")
    ∷ (codes ".mpg", codes "video/mpeg")
    ∷ (codes ".avi", codes "video/x-msvideo")
    ∷ (codes ".gz", codes "application/x-gzip")
    ∷ (codes ".tar", codes "application/x-tar")
    ∷ (codes ".css", codes "text/css ")
    ∷ (codes ".js", codes "text/javascript ")
    ∷ []

abbrev pub code_status : ℤ → Option (List ℕ)
code_status (pos n) =
    if n == 200
    then some (codes "OK")
    else if n == 400
    then some (codes "Bad Request")
    else if n == 403
    then some (codes "Forbidden")
    else if n == 404
    then some (codes "Not Found")
    else none
code_status (negsuc n) = none

abbrev pub code_path : ℤ → Option (List ℕ)
code_path (pos n) =
    if n == 400
    then some (codes "/400.html")
    else if n == 403
    then some (codes "/403.html")
    else if n == 404
    then some (codes "/404.html")
    else none
code_path (negsuc n) = none

-- The rounds that are left, and the number.
abbrev pub decimal : ℕ → ℕ → List ℕ
decimal zero n = []
decimal (suc fuel) n = elim (compare n 10) [
  | Ordering.lt ↦ (b'0' + n) ∷ []
  | _ ↦ decimal fuel (n / 10) ++ (b'0' + n % 10) ∷ []
]

-- `to_string`
abbrev pub to_text : ℕ → List ℕ
to_text n = decimal (n + 1) n

abbrev pub int_to_text : ℤ → List ℕ
int_to_text (pos n) = to_text n
int_to_text (negsuc n) = b'-' ∷ to_text (suc n)

abbrev pub crlf : List ℕ
crlf = 13 ∷ 10 ∷ []

-- From the last `.` on.
abbrev pub last_suffix : List ℕ → Option (List ℕ)
last_suffix [] = none
last_suffix (c ∷ s) = elim (last_suffix s) [
  | some t ↦ some t
  | none ↦ if c == b'.' then some (c ∷ s) else none
]

-- `GetFileType_`
pub get_file_type : List ℕ → List ℕ
get_file_type path = elim (last_suffix path) [
  | none ↦ codes "text/plain"
  | some suffix ↦ elim (lookup suffix suffix_type) [ none ↦ codes "text/plain" | some t ↦ t ]
]

module _ (files : Files) where
  open files use {stat, opens, mmap}

  -- `stat((srcDir_ + path_).data(), &mmFileStat_)`
  abbrev pub stat_file : HttpResponse → HttpResponse
  stat_file r = elim (stat (r.src_dir ++ r.path)) [ none ↦ r | some s ↦ record r { file_stat = s } ]

  -- `else if(code_ == -1) { code_ = 200; }`
  abbrev pub default_code : ℤ → ℤ
  default_code (pos n) = pos n
  default_code (negsuc n) = if n == 0 then pos 200 else negsuc n

  -- The tests at the start of `MakeResponse`.
  pub choose_code : HttpResponse → HttpResponse
  choose_code r = elim (stat (r.src_dir ++ r.path)) [
    | none ↦ record r { code = pos 404 }
    | some s ↦
        let seen = record r { file_stat = s } in
        if s.is_dir
        then record seen { code = pos 404 }
        else if not s.others_read
        then record seen { code = pos 403 }
        else record seen { code = default_code r.code }
  ]

  -- `ErrorHtml_`
  pub error_html : HttpResponse → HttpResponse
  error_html r = elim (code_path r.code) [
    | none ↦ r
    | some page ↦ stat_file (record r { path = page })
  ]

  -- The status's text, and code 400 in place of an unknown one.
  abbrev pub known_status : HttpResponse → HttpResponse × List ℕ
  known_status r = elim (code_status r.code) [
    | some s ↦ (r, s)
    | none ↦ (record r { code = pos 400 }, codes "Bad Request")
  ]

  -- `AddStateLine_`
  pub add_state_line : HttpResponse → Buffer → Run (HttpResponse × Buffer)
  add_state_line r b =
      let (r', status) = known_status r in
      append (codes "HTTP/1.1 " ++ (int_to_text r'.code ++ (codes " " ++ (status ++ crlf)))) b
      >>= λ b'. ok (r', b')

  -- `AddHeader_`
  pub add_header : HttpResponse → Buffer → Run Buffer
  add_header r b = do
    b1 ← append (codes "Connection: ") b
    b2 ←
        if r.keep_alive
        then append (codes "keep-alive" ++ crlf) b1
          >>= append (codes "keep-alive: max=6, timeout=120" ++ crlf)
        else append (codes "close" ++ crlf) b1
    append (codes "Content-type: " ++ (get_file_type r.path ++ crlf)) b2

  -- The body of `ErrorContent`.
  abbrev pub error_body : HttpResponse → List ℕ → List ℕ
  error_body r message =
      let status : List ℕ = elim (code_status r.code) [ some s ↦ s | none ↦ codes "Bad Request" ] in
      codes "<html><title>Error</title><body bgcolor=\"ffffff\">"
      ++ (int_to_text r.code
          ++ (codes " : "
              ++ (status
                  ++ (10
                      ∷ (codes "<p>"
                          ++ (message ++ codes "</p><hr><em>TinyWebServer</em></body></html>"))))))

  -- `ErrorContent`
  pub error_content : HttpResponse → List ℕ → Buffer → Run Buffer
  error_content r message b =
      append
        (codes "Content-length: " ++ (to_text (length (error_body r message)) ++ (crlf ++ crlf))) b
      >>= append (error_body r message)

  -- `*mmRet == -1`: the first four bytes, with zeros after the end of the file.
  abbrev pub starts_all_ones : List ℕ → Bool
  starts_all_ones bytes =
      (get_or bytes 0 0 == 255)
      && ((get_or bytes 1 0 == 255) && ((get_or bytes 2 0 == 255) && (get_or bytes 3 0 == 255)))

  -- `AddContent_`
  pub add_content : HttpResponse → Buffer → Run (HttpResponse × Buffer)
  add_content r b =
      let failed = error_content r (codes "File NotFound!") b >>= λ b'. ok (r, b') in
      if not (opens (r.src_dir ++ r.path))
      then failed
      else elim (mmap (r.src_dir ++ r.path) r.file_stat.size) [
        | none ↦ abort
        | some bytes ↦
            let mapped =
              append (codes "Content-length: " ++ (to_text r.file_stat.size ++ (crlf ++ crlf))) b
              >>= λ b'. ok (record r { file = some bytes }, b') in
            if starts_all_ones bytes then failed else mapped
      ]

  pub make_response : HttpResponse → Buffer → Run (HttpResponse × Buffer)
  make_response r b = do
    (r1, b1) ← add_state_line (error_html (choose_code r)) b
    b2 ← add_header r1 b1
    add_content r1 b2
