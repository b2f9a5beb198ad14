-- ===== src/Rtp/Header.antt =====
-- code/rtp/rtp.h and rtp.cpp: `RTP_Header`, its constructors and `makeRtpHeader`.
-- The fields are native numbers within their C++ types; the machine is little-endian, so that
-- `htonl` and `memmove` together write a word's bytes from the highest to the lowest.
use Prim.Native.Nat.{bit_and, bit_or}
use video_server.Base.{
  ℕ, ◌+◌, ◌-◌, ◌*◌, ◌/◌, ◌%◌, ◌^◌, ◌<◌, ◌≡◌, refl, ap, ◌∙◌, List, [], ◌∷◌, ◌++◌, arith, length,
  get_or,
}
use video_server.Base.Bits.{bit_or-shifted, bit_and-mask, pow-pos}

pub record RtpHeader : Type 0 where
  pub version : ℕ
  pub padding : ℕ
  pub extension : ℕ
  pub csrc_count : ℕ
  pub payload_type : ℕ
  pub marker : ℕ
  pub seq : ℕ
  pub timestamp : ℕ
  pub ssrc : ℕ

abbrev pub rtp_version : ℕ
rtp_version = 2

abbrev pub rtp_header_size : ℕ
rtp_header_size = 12

abbrev pub rtp_payload_type_h264 : ℕ
rtp_payload_type_h264 = 96

-- `RTP_Header(seq, timestamp, ssrc)`
abbrev pub h264_header : ℕ → ℕ → ℕ → RtpHeader
h264_header seq timestamp ssrc = record {
  version = rtp_version;
  padding = 0;
  extension = 0;
  csrc_count = 0;
  payload_type = rtp_payload_type_h264;
  marker = 0;
  seq = seq;
  timestamp = timestamp;
  ssrc = ssrc;
}

-- `RTP_Header()`
abbrev pub default_header : RtpHeader
default_header = record {
  version = 0;
  padding = 0;
  extension = 0;
  csrc_count = 0;
  payload_type = 0;
  marker = 0;
  seq = 100;
  timestamp = 0;
  ssrc = 0;
}

-- `header <<= k; header |= (field & mask);` on an `unsigned`, with `mask` the `k` low bits
abbrev pub shift_in : ℕ → ℕ → ℕ → ℕ
shift_in k header field = bit_or (header * 2 ^ k % 2 ^ 32) (bit_and field (2 ^ k - 1))

-- `htonl`, as the bytes that stand in memory
abbrev pub network_bytes : ℕ → List ℕ
network_bytes w = w / 2 ^ 24 % 256 ∷ w / 2 ^ 16 % 256 ∷ w / 2 ^ 8 % 256 ∷ w % 256 ∷ []

-- The word of the first four bytes.
unfoldable pub first_word : RtpHeader → ℕ
first_word h =
    let version = shift_in 2 0 h.version in
    let padding = shift_in 1 version h.padding in
    let extension = shift_in 1 padding h.extension in
    let csrc = shift_in 4 extension h.csrc_count in
    let marker = shift_in 1 csrc h.marker in
    let payload = shift_in 7 marker h.payload_type in shift_in 16 payload h.seq

unfoldable pub make_rtp_header : RtpHeader → List ℕ
make_rtp_header h =
    network_bytes (first_word h) ++ (network_bytes h.timestamp ++ network_bytes h.ssrc)

-- `shift_in` on a word with room adds the field's low bits.
shift_in-sum :
    (k header field : ℕ)
    → header * 2 ^ k < 2 ^ 32
    → shift_in k header field ≡ header * 2 ^ k + field % 2 ^ k
shift_in-sum k header field h =
    let kept : header * 2 ^ k % 2 ^ 32 ≡ header * 2 ^ k = omega arith in
    ap (λ (p : ℕ). bit_or p (bit_and field (2 ^ k - 1))) kept
    ∙ ap (bit_or (header * 2 ^ k)) (bit_and-mask k field)
    ∙ bit_or-shifted k header (field % 2 ^ k) (omega (arith, pow-pos k))

-- Each field fits the bits that it has in the packet.
pub record IsInRange (h : RtpHeader) : Type 0 where
  pub version : h.version < 4
  pub padding : h.padding < 2
  pub extension : h.extension < 2
  pub csrc_count : h.csrc_count < 16
  pub payload_type : h.payload_type < 128
  pub marker : h.marker < 2
  pub seq : h.seq < 2 ^ 16
  pub timestamp : h.timestamp < 2 ^ 32
  pub ssrc : h.ssrc < 2 ^ 32

first_word-sum :
    (h : RtpHeader)
    → IsInRange h
    → first_word h
      ≡ h.version * 2 ^ 30
        + h.padding * 2 ^ 29
        + h.extension * 2 ^ 28
        + h.csrc_count * 2 ^ 24
        + h.marker * 2 ^ 23
        + h.payload_type * 2 ^ 16
        + h.seq
unfolding first_word
first_word-sum h r =
    let w1 = shift_in 2 0 h.version in
    let w2 = shift_in 1 w1 h.padding in
    let w3 = shift_in 1 w2 h.extension in
    let w4 = shift_in 4 w3 h.csrc_count in
    let w5 = shift_in 1 w4 h.marker in
    let w6 = shift_in 7 w5 h.payload_type in
    let e1 : w1 ≡ h.version = shift_in-sum 2 0 h.version (omega arith) ∙ omega arith in
    let e2 : w2 ≡ h.version * 2 + h.padding =
      shift_in-sum 1 w1 h.padding (omega arith) ∙ omega arith in
    let e3 : w3 ≡ h.version * 4 + h.padding * 2 + h.extension =
      shift_in-sum 1 w2 h.extension (omega arith) ∙ omega arith in
    let e4 : w4 ≡ h.version * 64 + h.padding * 32 + h.extension * 16 + h.csrc_count =
      shift_in-sum 4 w3 h.csrc_count (omega arith) ∙ omega arith in
    let e5 : w5
        ≡ h.version * 128 + h.padding * 64 + h.extension * 32 + h.csrc_count * 2 + h.marker =
      shift_in-sum 1 w4 h.marker (omega arith) ∙ omega arith in
    let e6 : w6
        ≡ h.version * 2 ^ 14
          + h.padding * 2 ^ 13
          + h.extension * 2 ^ 12
          + h.csrc_count * 2 ^ 8
          + h.marker * 2 ^ 7
          + h.payload_type =
      shift_in-sum 7 w5 h.payload_type (omega arith) ∙ omega arith in
    shift_in-sum 16 w6 h.seq (omega arith) ∙ omega arith

-- A reader of RFC 3550: the header that twelve bytes stand for.
abbrev pub word_at : ℕ → List ℕ → ℕ
word_at i p =
    get_or p i 0 * 2 ^ 24
    + get_or p (i + 1) 0 * 2 ^ 16
    + get_or p (i + 2) 0 * 2 ^ 8
    + get_or p (i + 3) 0

abbrev pub decode_header : List ℕ → RtpHeader
decode_header p = record {
  version = get_or p 0 0 / 64;
  padding = get_or p 0 0 / 32 % 2;
  extension = get_or p 0 0 / 16 % 2;
  csrc_count = get_or p 0 0 % 16;
  payload_type = get_or p 1 0 % 128;
  marker = get_or p 1 0 / 128;
  seq = get_or p 2 0 * 256 + get_or p 3 0;
  timestamp = word_at 4 p;
  ssrc = word_at 8 p;
}

pub length-make_rtp_header : (h : RtpHeader) → length (make_rtp_header h) ≡ rtp_header_size
unfolding make_rtp_header
length-make_rtp_header h = refl

-- Reading back what `makeRtpHeader` wrote of a header whose fields fit their bits gives the
-- header, whatever payload follows.
pub decode_header-make_rtp_header :
    (h : RtpHeader) (payload : List ℕ)
    → IsInRange h
    → decode_header (make_rtp_header h ++ payload) ≡ h
unfolding make_rtp_header
decode_header-make_rtp_header h payload r = ground (arith, first_word-sum h r)
