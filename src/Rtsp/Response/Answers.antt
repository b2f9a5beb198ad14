-- ===== src/Rtsp/Response/Answers.antt =====
-- The reply in the write buffer is the method's text, with what the client wrote in it.
use video_server.Base.{
  ℕ, ◌+◌, ◌<◌, ◌≡◌, refl, ap, ◌∙◌, false, List, [], ◌∷◌, ◌++◌, some, arith, length, drop,
  take-length,
}
use video_server.Base.Run.{Ensures}
use video_server.Base.Text.{codes, has_byte}
use video_server.Buffer.{Buffer}
use video_server.Buffer.Contents.{contents, IsValid}
use video_server.Buffer.Refine.{Holds, append_extends}
use video_server.Rtsp.{Method, setup, RtspRequest, c_string}
use video_server.Rtsp.Request.{method_of}
use video_server.Rtsp.Request.Fields.{c_string-append}
use video_server.Rtsp.Request.Whole.{IsRead, method_of-method_word}
use video_server.Rtsp.Response.{
  RtspResponse, print_into, fill_response_buffer, answer_text, keep_for, make_response_str,
}

print_into-whole :
    (text old : List ℕ)
    → has_byte 0 text ≡ false
    → length text < 1024
    → c_string (print_into 1024 text old) ≡ text
print_into-whole text old h fits =
    rw (take-length 1023 text (omega arith)) (c_string-append text (drop (length text + 1) old) h)

-- What a method keeps is not the text.
kept_text :
    (m : Method) (q : RtspRequest) (r : RtspResponse)
    → (keep_for m q r).0.response_str ≡ r.response_str
kept_text setup q r = refl
kept_text _ q r = refl

pub make_response_str-text :
    (date stamp : List ℕ) (m : Method) (host path number text : List ℕ) (q0 q : RtspRequest)
    (r : RtspResponse)
    → IsRead m host path number q0 q
    → answer_text date stamp m number
        (codes "rtsp://" ++ (host ++ b'/' ∷ []))
        path
        q0.rtp_port
        q0.rtcp_port
      ≡ some text
    → has_byte 0 text ≡ false
    → length text < 1024
    → c_string (make_response_str date stamp q r).0.response_str ≡ text
unfolding make_response_str
make_response_str-text date stamp m host path number text q0 q r read answer h fits =
    let same : method_of q.method ≡ m = ap method_of read.method ∙ method_of-method_word m in
    rw
      (
        same,
        kept_text m q,
        read.cseq,
        read.pre_suffix,
        read.suffix,
        read.rtp_port,
        read.rtcp_port,
        answer,
      )
      (print_into-whole text r.response_str h fits)

-- `fillResponseBuffer` on a valid buffer adds the reply's text.
pub fill_response_buffer_adds :
    (r : RtspResponse) (b : Buffer)
    → IsValid b
    → Ensures (Holds (contents b ++ c_string r.response_str)) (fill_response_buffer r b)
unfolding fill_response_buffer
fill_response_buffer_adds r b v = append_extends (c_string r.response_str) b v
