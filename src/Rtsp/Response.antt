-- ===== src/Rtsp/Response.antt =====
-- code/rtsp/rtspresponse.h and rtspresponse.cpp: the text of a reply, and what is kept for the stream.
-- The clock is a parameter: the text of `dateHeader`, and of the seconds and microseconds in the SDP.
pub mod Answers
pub mod Kept
pub mod Session
use video_server.Base.{
  ◌≤◌, le→leb, ℕ, ◌+◌, ◌-◌, Bool, true, false, List, [], ◌∷◌, ◌++◌, length, take, drop, replicate,
  leb, if◌then◌else◌, Option, none, some,
}
use video_server.Base.Int.{ℤ, pos}
use video_server.Base.Run.{Run, ok, abort, ◌>>=◌, Ensures, ensures}
use video_server.Base.Text.{codes}
use video_server.Buffer.{Buffer, append}
use video_server.Http.Response.{crlf, int_to_text, to_text}
use video_server.Rtsp.{Method, options, describe, play, setup, RtspRequest, string_min, c_string}
use video_server.Rtsp.Request.{method_of}

pub record RtspResponse : Type 0 where
  pub response_str : List ℕ
  pub file_path : List ℕ
  pub ip : List ℕ
  pub rtp_port : ℤ
  pub rtcp_port : ℤ

-- `RESPONSE_BUFFER_SIZE`, `SERVER_RTP_PORT` and `SERVER_RTCP_PORT`
abbrev pub response_buffer_size : ℕ
response_buffer_size = 1024

-- `snprintf` into an array of this size: what does not fit is cut off.
abbrev pub print_into : ℕ → List ℕ → List ℕ → List ℕ
print_into size text old = let kept = take (size - 1) text in kept ++ 0 ∷ drop (length kept + 1) old

-- `init`: `memcpy` of `strlen(ip)` bytes.
unfoldable pub init_ip : List ℕ → RtspResponse → Run RtspResponse
init_ip text r =
    if leb (length text) string_min
    then ok (record r { ip = text ++ drop (length text) r.ip })
    else abort

pub init_ip-Ensures :
    (text : List ℕ) (r : RtspResponse)
    → length text ≤ 20
    → Ensures (λ r'. Unit {0}) (init_ip text r)
unfolding init_ip
init_ip-Ensures text r h = rw (le→leb (length text) string_min h) (ensures tt)

-- `resetStr`
pub reset_str : RtspResponse → RtspResponse
reset_str r = record r { response_str = replicate response_buffer_size 0 }

-- `fillResponseBuffer`
pub fill_response_buffer : RtspResponse → Buffer → Run Buffer
fill_response_buffer r b = append (c_string r.response_str) b

-- `sdpLength`, the size of the allocation: the format's length, and the rest of the sum.
abbrev pub sdp_length : ℕ
sdp_length = 136 + 20 + 6 + 20 + 3 + 19 + 200

-- The session's lines behind the two numbers, and all of them.
abbrev pub session_end : List ℕ
session_end =
    codes " 1 IN IP4 192.168.171.1"
    ++ crlf
    ++ codes "s=H.264 Video, streamed by the LIVE555 Media Server"
    ++ crlf
    ++ codes "i=test.264"
    ++ crlf
    ++ codes "t=0 0"
    ++ crlf
    ++ codes "a=tool:LIVE555 Streaming Media v2022.12.01"
    ++ crlf
    ++ codes "a=type:broadcast"
    ++ crlf
    ++ codes "a=control:*"
    ++ crlf
    ++ codes "a=range:npt=now-"
    ++ crlf
    ++ codes "a=x-qt-text-nam:H.264 Video, streamed by the LIVE555 Media Server"
    ++ crlf
    ++ codes "a=x-qt-text-inf:test.264"
    ++ crlf

abbrev pub session_lines : List ℕ → List ℕ
session_lines stamp = codes "v=0" ++ crlf ++ codes "o=- " ++ stamp ++ session_end

abbrev pub media_lines : List ℕ
media_lines =
    codes "m=video 0 RTP/AVP 96"
    ++ crlf
    ++ codes "c=IN IP4 0.0.0.0"
    ++ crlf
    ++ codes "b=AS:500"
    ++ crlf
    ++ codes "a=rtpmap:96 H264/90000"
    ++ crlf
    ++ codes
        "a=fmtp:96 packetization-mode=1;profile-level-id=42C015;sprop-parameter-sets=Z0LAFdkAoCOwEQAAAwABAAADADIPFi5I,aMuMsg=="
    ++ crlf
    ++ codes "a=control:track1"
    ++ crlf

-- Whether the reply is DESCRIBE's, whose text `generateSDPDescription` writes past its allocation, as
-- `Kept` shows.
abbrev pub overruns_of : Method → Bool
overruns_of describe = true
overruns_of _ = false

abbrev pub overruns : RtspRequest → Bool
overruns q = overruns_of (method_of q.method)

-- `generateSDPDescription`: the text. The second `snprintf` has its own bound of 400, which does not
-- look at the allocation: the bytes past its end are kept here.
unfoldable pub generate_sdp_description : List ℕ → List ℕ
generate_sdp_description stamp = take (sdp_length - 1) (session_lines stamp) ++ take 399 media_lines

-- The texts of `makeResponeStr`: `date` is that of `dateHeader`, and the three strings are the
-- request's. A method without a case has no text.
abbrev pub answer_text :
    (date stamp : List ℕ) → Method → (cseq presuffix suffix : List ℕ) → ℤ → ℤ → Option (List ℕ)
answer_text date stamp options cseq presuffix suffix rtp_port rtcp_port = some (
    codes "RTSP/1.0 200 OK"
    ++ crlf
    ++ codes "CSeq: "
    ++ cseq
    ++ crlf
    ++ date
    ++ codes "Public: OPTIONS, DESCRIBE, SETUP, PLAY"
    ++ crlf
    ++ crlf)
answer_text date stamp describe cseq presuffix suffix rtp_port rtcp_port =
    let sdp = generate_sdp_description stamp in
    some (
      codes "RTSP/1.0 200 OK"
      ++ crlf
      ++ codes "CSeq: "
      ++ cseq
      ++ crlf
      ++ date
      ++ codes "Content-Base: "
      ++ presuffix
      ++ suffix
      ++ codes "/"
      ++ crlf
      ++ codes "Content-Type: application/sdp"
      ++ crlf
      ++ codes "Content-Length: "
      ++ to_text (length sdp)
      ++ crlf
      ++ crlf
      ++ sdp)
answer_text date stamp setup cseq presuffix suffix rtp_port rtcp_port = some (
    codes "RTSP/1.0 200 OK"
    ++ crlf
    ++ codes "Cseq: "
    ++ cseq
    ++ crlf
    ++ codes "Transport: RTP/AVP/UDP;unicast;client_port="
    ++ int_to_text rtp_port
    ++ codes "-"
    ++ int_to_text rtcp_port
    ++ codes ";server_port=12345-12346"
    ++ crlf
    ++ codes "Session: 138A4393;timeout=65"
    ++ crlf
    ++ crlf)
answer_text date stamp play cseq presuffix suffix rtp_port rtcp_port = some (
    codes "RTSP/1.0 200 OK"
    ++ crlf
    ++ codes "Cseq: "
    ++ cseq
    ++ crlf
    ++ codes "Range: npt=0.000-"
    ++ crlf
    ++ codes "Session: 138A4393; timeout=65"
    ++ crlf
    ++ crlf)
answer_text date stamp _ cseq presuffix suffix rtp_port rtcp_port = none

-- What a method keeps of the request besides; true if it starts a thread that runs `sendRTPPacket`.
abbrev pub keep_for : Method → RtspRequest → RtspResponse → RtspResponse × Bool
keep_for describe q r = (record r { file_path = take string_min q.suffix }, false)
keep_for setup q r = (record r { rtp_port = q.rtp_port; rtcp_port = q.rtcp_port }, false)
keep_for play q r = (r, true)
keep_for _ q r = (r, false)

-- `makeResponeStr`, by way of `setResponePar`.
pub make_response_str : (date stamp : List ℕ) → RtspRequest → RtspResponse → RtspResponse × Bool
make_response_str date stamp q r =
    let m = method_of q.method in
    let answer =
      answer_text date stamp m (c_string q.cseq) (c_string q.pre_suffix) (c_string q.suffix)
        q.rtp_port q.rtcp_port in
    keep_for m q (elim answer [
      | none ↦ r
      | some text ↦ record r { response_str = print_into response_buffer_size text r.response_str }
    ])
