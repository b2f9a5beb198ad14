-- ===== src/Rtsp/Request/Url.antt =====
-- The line with a URL: its parts before and behind the first single slash.
use video_server.Base.{
  ℕ, ◌<◌, ◌≡◌, refl, ◌∙◌, true, false, List, [], ◌∷◌, ◌++◌, some, arith, length, get_or, ◌==◌,
  length-append,
}
use video_server.Base.Run.{Ensures, ensures, Ensures-bind}
use video_server.Base.Scan.{has_byte-append, find_word}
use video_server.Base.Text.{codes, has_byte}
use video_server.Rtsp.{
  Method, options, describe, announce, get_parameter, pause, play, record_to, redirect, setup,
  set_parameter, teardown, RtspRequest, c_string,
}
use video_server.Rtsp.Request.{starts_url, scan_url, key_words, common_key, process_request_common}
use video_server.Rtsp.Request.Fields.{store_keeps}

-- The word of a method in a request.
abbrev pub method_word : Method → List ℕ
method_word options = codes "OPTIONS"
method_word describe = codes "DESCRIBE"
method_word announce = codes "ANNOUNCE"
method_word get_parameter = codes "GET_PARAMETER"
method_word pause = codes "PAUSE"
method_word play = codes "PLAY"
method_word record_to = codes "RECORD"
method_word redirect = codes "REDIRECT"
method_word setup = codes "SETUP"
method_word set_parameter = codes "SET_PARAMETER"
method_word teardown = codes "TEARDOWN"

-- No URL starts in a text without a colon that a space ends.
no_start :
    (c : ℕ) (s rest : List ℕ) → has_byte b':' s ≡ false → starts_url c (s ++ b' ' ∷ rest) ≡ false
unfolding starts_url
no_start x [] rest h = ground arith
no_start x (a ∷ []) rest h = ground arith
no_start x (a ∷ b ∷ []) rest h = ground arith
no_start x (a ∷ b ∷ c ∷ []) rest h = ground arith
no_start x (a ∷ b ∷ c ∷ d ∷ s) rest h = ground arith

no_r : (c : ℕ) (s : List ℕ) → (c == b'r') ≡ false → starts_url c s ≡ false
unfolding starts_url
no_r c s h = rw h refl

scan_url-path :
    (before : ℕ) (s rest : List ℕ)
    → has_byte b':' s ≡ false
    → has_byte b' ' s ≡ false
    → scan_url before (s ++ b' ' ∷ rest) false true ≡ ([], s)
unfolding scan_url
scan_url-path before [] rest h i = rw (no_r b' ' rest (ground arith)) refl
scan_url-path before (c ∷ s) rest h i =
    let later : has_byte b':' s ≡ false = ground arith in
    let start = no_start c s rest later in
    let passed = scan_url-path c s rest later (ground arith) in rw (start, passed) (ground arith)

scan_url-host :
    (before : ℕ) (s rest : List ℕ)
    → has_byte b'/' s ≡ false
    → (before == b'/') ≡ false
    → (get_or rest 0 0 == b'/') ≡ false
    → scan_url before (s ++ b'/' ∷ rest) true false
      ≡ (s ++ b'/' ∷ (scan_url b'/' rest false true).0, (scan_url b'/' rest false true).1)
unfolding scan_url
scan_url-host before [] rest h i j = rw (i, j) refl
scan_url-host before (c ∷ s) rest h i j =
    let step = scan_url-host c s rest (ground arith) (ground arith) j in
    let other : (c == b'/') ≡ false = ground arith in rw (other, step) refl

-- The URL's start is copied to the prefix.
scan_url-scheme :
    (h : ℕ) (s : List ℕ)
    → (h == b'/') ≡ false
    → scan_url b' ' (codes "rtsp://" ++ h ∷ s) false false ≡ (
      codes "rtsp://" ++ (scan_url b'/' (h ∷ s) true false).0,
      (scan_url b'/' (h ∷ s) true false).1,
    )
unfolding scan_url starts_url
scan_url-scheme h s i = rw i refl

-- Nothing of the method is copied.
scan_url-word :
    (m : Method) (s : List ℕ)
    → scan_url 0 (method_word m ++ b' ' ∷ s) false false ≡ scan_url b' ' s false false
unfolding scan_url starts_url
scan_url-word options s = refl
scan_url-word describe s = refl
scan_url-word announce s = refl
scan_url-word get_parameter s = refl
scan_url-word pause s = refl
scan_url-word play s = refl
scan_url-word record_to s = refl
scan_url-word redirect s = refl
scan_url-word setup s = refl
scan_url-word set_parameter s = refl
scan_url-word teardown s = refl

finds_url :
    (m : Method) (s : List ℕ)
    → find_word key_words (method_word m ++ b' ' ∷ (codes "rtsp://" ++ s)) ≡ some (codes "rtsp://")
finds_url options s = refl
finds_url describe s = refl
finds_url announce s = refl
finds_url get_parameter s = refl
finds_url pause s = refl
finds_url play s = refl
finds_url record_to s = refl
finds_url redirect s = refl
finds_url setup s = refl
finds_url set_parameter s = refl
finds_url teardown s = refl

-- The first line of a request, with any text for the version.
abbrev pub url_line : Method → List ℕ → List ℕ → List ℕ → List ℕ
url_line m host path version =
    method_word m ++ b' ' ∷ (codes "rtsp://" ++ (host ++ b'/' ∷ (path ++ b' ' ∷ version)))

-- A host that no slash stands in and a path that no URL starts in, both within the arrays.
pub record IsUrl (host path : List ℕ) : Type 0 where
  pub some_host : 0 < length host
  pub whole_host : has_byte b'/' host ≡ false
  pub host_no_zero : has_byte 0 host ≡ false
  pub host_fits : length host < 192
  pub path_start : (get_or path 0 0 == b'/') ≡ false
  pub no_colon : has_byte b':' path ≡ false
  pub no_space : has_byte b' ' path ≡ false
  pub path_no_zero : has_byte 0 path ≡ false
  pub path_fits : length path < 200

get_or-front :
    (s rest : List ℕ)
    → (get_or s 0 0 == b'/') ≡ false
    → (get_or (s ++ b' ' ∷ rest) 0 0 == b'/') ≡ false
get_or-front [] rest h = ground arith
get_or-front (c ∷ s) rest h = h

scan_url-url :
    (m : Method) (host path version : List ℕ)
    → IsUrl host path
    → scan_url 0 (url_line m host path version) false false
      ≡ (codes "rtsp://" ++ (host ++ b'/' ∷ []), path)
unfolding scan_url
scan_url-url m [] path version u = absurd (omega (arith, u.some_host))
scan_url-url m (h ∷ host) path version u =
    let tail = path ++ b' ' ∷ version in
    let first : (h == b'/') ≡ false = ground (arith, u.whole_host) in
    let rest_host : has_byte b'/' host ≡ false = ground (arith, u.whole_host) in
    let whole =
      scan_url-host h host tail rest_host first (get_or-front path version u.path_start) in
    let suffix = scan_url-path b'/' path version u.no_colon u.no_space in
    scan_url-word m (codes "rtsp://" ++ ((h ∷ host) ++ b'/' ∷ tail))
    ∙ scan_url-scheme h (host ++ b'/' ∷ tail) first
    ∙ rw (first, whole, suffix) refl

-- The first line of a request with any of the methods, `rtsp://<host>/<path>` and a version is taken
-- without a write out of bounds; `m_preSuffix` then reads as the URL up to the slash behind the host
-- and `m_suffix` as the path, and no other field has changed.
-- The conditions: host and path fit the arrays and have no zero byte, the host is not empty and has no
-- slash, and the path has no space and no colon and does not start with a slash.
pub process_request_common-url_line :
    (m : Method) (host path version : List ℕ) (r : RtspRequest)
    → IsUrl host path
    → Ensures
        (λ p.
          (p.0 ≡ true)
          × ((c_string p.1.pre_suffix ≡ codes "rtsp://" ++ (host ++ b'/' ∷ []))
              × ((c_string p.1.suffix ≡ path)
                  × (p.1 ≡ record r { pre_suffix = p.1.pre_suffix; suffix = p.1.suffix }))))
        (process_request_common (url_line m host path version) r)
unfolding process_request_common common_key
process_request_common-url_line m host path version r u =
    let front = host ++ b'/' ∷ [] in
    let clean : has_byte 0 (codes "rtsp://" ++ front) ≡ false =
      has_byte-append 0 host (b'/' ∷ []) u.host_no_zero refl in
    let size : length (codes "rtsp://" ++ front) < 200 =
      omega (arith, length-append host (b'/' ∷ []), u.host_fits) in
    rw
      (
        finds_url m (host ++ b'/' ∷ (path ++ b' ' ∷ version)),
        process_request_common,
        scan_url-url m host path version u,
        common_key,
      )
      (Ensures-bind (store_keeps 200 (codes "rtsp://" ++ front) r.pre_suffix clean size)
        (λ pre same.
          Ensures-bind (store_keeps 200 path r.suffix u.path_no_zero u.path_fits)
            (λ suf equal. ensures (refl, (same, (equal, refl))))))
