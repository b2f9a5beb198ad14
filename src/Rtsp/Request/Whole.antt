-- ===== src/Rtsp/Request/Whole.antt =====
-- A whole request: its first line, its sequence number, further header lines and the empty line.
use video_server.Base.{
  ◌≡◌, refl, ap, sym, All, ◌∙◌, ℕ, ◌<◌, true, List, [], ◌∷◌, ◌++◌, some, none, Option, Bool, false,
  length, Option-cases, inl, inr,
}
use video_server.Base.Int.{ℤ}
use video_server.Base.Run.{ok, Ensures, ensures, Ensures-bind}
use video_server.Base.Scan.{find_word}
use video_server.Base.Text.{codes}
use video_server.Rtsp.{
  Method, options, describe, announce, get_parameter, pause, play, record_to, redirect, setup,
  set_parameter, teardown, RtspRequest, c_string, MethodKey, url_addr, cseq_key, accept, user_agent,
  transport,
}
use video_server.Rtsp.Request.{
  key_words, key_of, common_key, scan_ports, method_words, method_of, by_method, setup_key,
  process_request_setup, process_request_common, process_line, returns,
}
use video_server.Rtsp.Request.Fields.{IsPlain, cseq_line, process_request_common-cseq_line}
use video_server.Rtsp.Request.Reads.{process_lines}
use video_server.Rtsp.Request.Url.{method_word, url_line, IsUrl, process_request_common-url_line}

pub finds_method :
    (m : Method) (host path version : List ℕ)
    → find_word method_words (url_line m host path version) ≡ some (method_word m)
finds_method options host path version = refl
finds_method describe host path version = refl
finds_method announce host path version = refl
finds_method get_parameter host path version = refl
finds_method pause host path version = refl
finds_method play host path version = refl
finds_method record_to host path version = refl
finds_method redirect host path version = refl
finds_method setup host path version = refl
finds_method set_parameter host path version = refl
finds_method teardown host path version = refl

pub method_of-method_word : (m : Method) → method_of (method_word m) ≡ m
method_of-method_word options = refl
method_of-method_word describe = refl
method_of-method_word announce = refl
method_of-method_word get_parameter = refl
method_of-method_word pause = refl
method_of-method_word play = refl
method_of-method_word record_to = refl
method_of-method_word redirect = refl
method_of-method_word setup = refl
method_of-method_word set_parameter = refl
method_of-method_word teardown = refl

-- A request with these lines between its sequence number and the empty line.
abbrev pub request_lines :
    Method → (host path version number : List ℕ) → List (List ℕ) → List (List ℕ)
request_lines m host path version number headers =
    url_line m host path version ∷ cseq_line number ∷ headers ++ [] ∷ []

abbrev pub is_quiet_key : MethodKey → Bool
is_quiet_key url_addr = false
is_quiet_key cseq_key = false
is_quiet_key accept = true
is_quiet_key user_agent = true
is_quiet_key transport = true

abbrev pub is_quiet : Option (List ℕ) → Bool
is_quiet none = true
is_quiet (some word) = is_quiet_key (key_of word)

-- A line without the key words of a URL and of a sequence number, such as `Accept:`, whose handler
-- returns: for SETUP one without any key word.
abbrev pub IsHeader : Method → List ℕ → Type 0
IsHeader m line = (is_quiet (find_word key_words line) ≡ true) × (returns m line ≡ true)

-- The fields of `q` say what the client wrote; the ports are those of `r`.
pub record IsRead (m : Method) (host path number : List ℕ) (r q : RtspRequest) : Type 0 where
  pub method : q.method ≡ method_word m
  pub cseq : c_string q.cseq ≡ number
  pub pre_suffix : c_string q.pre_suffix ≡ codes "rtsp://" ++ (host ++ b'/' ∷ [])
  pub suffix : c_string q.suffix ≡ path
  pub rtp_port : q.rtp_port ≡ r.rtp_port
  pub rtcp_port : q.rtcp_port ≡ r.rtcp_port

common_key-quiet :
    (k : MethodKey) (line : List ℕ) (r : RtspRequest)
    → is_quiet_key k ≡ true
    → common_key k line r ≡ ok (false, r)
unfolding common_key
common_key-quiet url_addr line r h = cc
common_key-quiet cseq_key line r h = cc
common_key-quiet accept line r h = refl
common_key-quiet user_agent line r h = refl
common_key-quiet transport line r h = refl

process_request_common-header :
    (line : List ℕ) (r : RtspRequest)
    → is_quiet (find_word key_words line) ≡ true
    → process_request_common line r ≡ ok (false, r)
unfolding process_request_common
process_request_common-header line r h = elim (Option-cases (find_word key_words line)) [
  | inl e ↦ rw (e, process_request_common) refl
  | inr (word, e) ↦
      rw (e, process_request_common)
        (common_key-quiet (key_of word) line r (ap is_quiet (sym e) ∙ h))
]

module _ (sscanf : List ℕ → List ℕ → ℤ × ℤ → ℤ × ℤ) where
  -- No method does anything with the empty line.
  empty_line_left : (m : Method) (r : RtspRequest) → by_method sscanf m [] r ≡ r
  unfolding process_request_setup
  empty_line_left setup r = refl
  empty_line_left _ r = refl

  -- What the lines of a method do, one after the other.
  abbrev pub heard : Method → List (List ℕ) → RtspRequest → RtspRequest
  heard m [] r = r
  heard m (line ∷ lines) r = heard m lines (by_method sscanf m line r)

  scan_ports-IsRead :
      (m : Method) (host path number line : List ℕ) (r q : RtspRequest)
      → IsRead m host path number r q
      → IsRead m host path number (scan_ports sscanf line r) (scan_ports sscanf line q)
  unfolding scan_ports
  scan_ports-IsRead m host path number line r q h = record {
    method = h.method;
    cseq = h.cseq;
    pre_suffix = h.pre_suffix;
    suffix = h.suffix;
    rtp_port = rw (h.rtp_port, h.rtcp_port) refl;
    rtcp_port = rw (h.rtp_port, h.rtcp_port) refl;
  }

  -- A header line is left to the method.
  process_line-header :
      (line : List ℕ) (r : RtspRequest)
      → IsHeader (method_of r.method) line
      → process_line sscanf line r ≡ ok (by_method sscanf (method_of r.method) line r)
  unfolding process_line
  process_line-header line r h = rw (process_request_common-header line r h.0, h.1) refl

  setup_key-IsRead :
      (m : Method) (host path number line : List ℕ) (k : MethodKey) (r q : RtspRequest)
      → IsRead m host path number r q
      → IsRead m host path number (setup_key sscanf k line r) (setup_key sscanf k line q)
  setup_key-IsRead m host path number line transport r q h =
      scan_ports-IsRead m host path number line r q h
  setup_key-IsRead m host path number line _ r q h = h

  setup-IsRead :
      (m : Method) (host path number line : List ℕ) (r q : RtspRequest)
      → IsRead m host path number r q
      → IsRead m host path number
          (process_request_setup sscanf line r)
          (process_request_setup sscanf line q)
  unfolding process_request_setup
  setup-IsRead m host path number line r q h = elim (Option-cases (find_word key_words line)) [
    | inl e ↦ rw (e, process_request_setup) h
    | inr (word, e) ↦
        rw (e, process_request_setup) (setup_key-IsRead m host path number line (key_of word) r q h)
  ]

  by_method-IsRead :
      (n m : Method) (host path number line : List ℕ) (r q : RtspRequest)
      → IsRead m host path number r q
      → IsRead m host path number (by_method sscanf n line r) (by_method sscanf n line q)
  by_method-IsRead setup m host path number line r q h = setup-IsRead m host path number line r q h
  by_method-IsRead _ m host path number line r q h = h

  empty_line_returns : (m : Method) → returns m [] ≡ true
  empty_line_returns setup = refl
  empty_line_returns _ = refl

  empty_line_lem : (r : RtspRequest) → process_line sscanf [] r ≡ ok r
  unfolding process_line process_request_common
  empty_line_lem r =
      rw (empty_line_returns (method_of r.method)) (ap ok (empty_line_left (method_of r.method) r))

  -- The header lines and the empty line.
  process_lines-headers :
      (m : Method) (host path number : List ℕ) (headers : List (List ℕ)) (r q : RtspRequest)
      → All (IsHeader m) headers
      → IsRead m host path number r q
      → Ensures
          (IsRead m host path number (heard m headers r))
          (process_lines sscanf (headers ++ [] ∷ []) q)
  process_lines-headers m host path number [] r q are h = rw (empty_line_lem q) (ensures h)
  process_lines-headers m host path number (line ∷ headers) r q are h =
      let same : method_of q.method ≡ m = ap method_of h.method ∙ method_of-method_word m in
      rw (process_line-header line q (rw same are.0), same)
        (process_lines-headers m host path number headers (by_method sscanf m line r)
          (by_method sscanf m line q) are.1 (by_method-IsRead m m host path number line r q h))

  -- A line that is taken leaves nothing to the method.
  process_line_takes {κ} :
      {P : RtspRequest → Type κ} (line : List ℕ) (r : RtspRequest)
      → Ensures (λ p. (p.0 ≡ true) × P p.1) (process_request_common line r)
      → Ensures P (process_line sscanf line r)
  unfolding process_line
  process_line_takes line r h = Ensures-bind h (λ p k. rw k.0 (ensures k.1))

  pub process_lines-request_lines :
      (m : Method) (host path version number : List ℕ) (headers : List (List ℕ)) (r : RtspRequest)
      → IsUrl host path
      → IsPlain number
      → length number < 20
      → All (IsHeader m) headers
      → r.method ≡ method_word m
      → Ensures
          (IsRead m host path number (heard m headers r))
          (process_lines sscanf (request_lines m host path version number headers) r)
  process_lines-request_lines m host path version number headers r u plain fits are word =
      Ensures-bind
        (process_line_takes (url_line m host path version) r
          (process_request_common-url_line m host path version r u))
        (λ p first.
          Ensures-bind
            (process_line_takes (cseq_line number) p
              (process_request_common-cseq_line number p plain fits))
            (λ q second. process_lines-headers m host path number headers r q are (record {
              method = ap (λ x. x.method) second.1 ∙ ap (λ x. x.method) first.1.1 ∙ word;
              cseq = second.0;
              pre_suffix = ap (λ x. c_string x.pre_suffix) second.1 ∙ first.0;
              suffix = ap (λ x. c_string x.suffix) second.1 ∙ first.1.0;
              rtp_port = ap (λ x. x.rtp_port) second.1 ∙ ap (λ x. x.rtp_port) first.1.1;
              rtcp_port = ap (λ x. x.rtcp_port) second.1 ∙ ap (λ x. x.rtcp_port) first.1.1;
            })))
