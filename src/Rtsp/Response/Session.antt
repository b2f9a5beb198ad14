-- ===== src/Rtsp/Response/Session.antt =====
-- What a reply leaves for the requests behind it: the file's path, the address and the ports.
use video_server.Base.{
  ℕ, ◌≡◌, refl, ap, ◌∙◌, Bool, true, false, zero, suc, List, [], ◌∷◌, Option, none, some, arith,
  take,
}
use video_server.Base.Int.{ℤ}
use video_server.Rtsp.{Method, options, describe, setup, play, c_string, string_min, RtspRequest}
use video_server.Rtsp.Request.{method_of}
use video_server.Rtsp.Request.Whole.{IsRead, method_of-method_word}
use video_server.Rtsp.Response.{
  RtspResponse, answer_text, keep_for, make_response_str, reset_str, print_into,
  response_buffer_size,
}

-- DESCRIBE names the file, by its first bytes.
abbrev pub kept_path : Method → (path before : List ℕ) → List ℕ
kept_path describe path before = take string_min path
kept_path _ path before = before

-- SETUP names the ports.
abbrev pub kept_port : Method → (asked before : ℤ) → ℤ
kept_port setup asked before = asked
kept_port _ asked before = before

-- PLAY starts the stream.
abbrev pub is_play : Method → Bool
is_play play = true
is_play _ = false

-- What `r'` keeps of `r` and of a request with that path and the ports of `q`.
pub record IsKept (m : Method) (path : List ℕ) (q : RtspRequest) (r r' : RtspResponse)
    : Type 0 where
  pub ip : r'.ip ≡ r.ip
  pub file : c_string r'.file_path ≡ kept_path m path (c_string r.file_path)
  pub rtp_port : r'.rtp_port ≡ kept_port m q.rtp_port r.rtp_port
  pub rtcp_port : r'.rtcp_port ≡ kept_port m q.rtcp_port r.rtcp_port

c_string-take : (n : ℕ) (s : List ℕ) → c_string (take n s) ≡ take n (c_string s)
c_string-take zero s = refl
c_string-take (suc n) [] = refl
c_string-take (suc n) (c ∷ s) = ground (arith, c_string-take n s)

keep_for-IsKept :
    (m : Method) (path : List ℕ) (q0 q : RtspRequest) (r r1 : RtspResponse)
    → c_string q.suffix ≡ path
    → q.rtp_port ≡ q0.rtp_port
    → q.rtcp_port ≡ q0.rtcp_port
    → IsKept options path q0 r r1
    → IsKept m path q0 r (keep_for m q r1).0 × ((keep_for m q r1).1 ≡ is_play m)
keep_for-IsKept describe path q0 q r r1 named rtp rtcp k = (
  record {
    ip = k.ip;
    file = c_string-take 20 q.suffix ∙ ap (take 20) named;
    rtp_port = k.rtp_port;
    rtcp_port = k.rtcp_port;
  },
  refl,
)
keep_for-IsKept setup path q0 q r r1 named rtp rtcp k =
    (record { ip = k.ip; file = k.file; rtp_port = rtp; rtcp_port = rtcp }, refl)
keep_for-IsKept _ path q0 q r r1 named rtp rtcp k =
    (record { ip = k.ip; file = k.file; rtp_port = k.rtp_port; rtcp_port = k.rtcp_port }, refl)

printed-IsKept :
    (answer : Option (List ℕ)) (path : List ℕ) (q0 : RtspRequest) (r : RtspResponse)
    → IsKept options path q0 r (elim answer [
      | none ↦ r
      | some text ↦ record r { response_str = print_into response_buffer_size text r.response_str }
    ])
printed-IsKept none path q0 r = record { ip = refl; file = refl; rtp_port = refl; rtcp_port = refl }
printed-IsKept (some t) path q0 r = record {
  ip = refl;
  file = refl;
  rtp_port = refl;
  rtcp_port = refl;
}

reset_str-IsKept :
    (path : List ℕ) (q0 : RtspRequest) (r r1 : RtspResponse)
    → IsKept options path q0 (reset_str r) r1
    → IsKept options path q0 r r1
unfolding reset_str
reset_str-IsKept path q0 r r1 k = record {
  ip = k.ip;
  file = k.file;
  rtp_port = k.rtp_port;
  rtcp_port = k.rtcp_port;
}

-- The reply's text is cleared before, and the rest is left.
pub make_response_str-IsKept :
    (date stamp : List ℕ) (m : Method) (host path number : List ℕ) (q0 q : RtspRequest)
    (r : RtspResponse)
    → IsRead m host path number q0 q
    → IsKept m path q0 r (make_response_str date stamp q (reset_str r)).0
      × ((make_response_str date stamp q (reset_str r)).1 ≡ is_play m)
unfolding make_response_str
make_response_str-IsKept date stamp m host path number q0 q r read =
    let same : method_of q.method ≡ m = ap method_of read.method ∙ method_of-method_word m in
    let text =
      answer_text date stamp m (c_string q.cseq) (c_string q.pre_suffix) (c_string q.suffix)
        q.rtp_port q.rtcp_port in
    rw same (
      keep_for-IsKept m path q0 q r _ read.suffix read.rtp_port read.rtcp_port
        (reset_str-IsKept path q0 r _ (printed-IsKept text path q0 (reset_str r))))
