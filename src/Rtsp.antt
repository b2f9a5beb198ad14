-- ===== src/Rtsp.antt =====
-- code/rtsp: the RTSP requests of a connection and the replies to them.
-- A `char` array is the list of its bytes; a write past its end is undefined and aborts the model.
pub mod Request
pub mod Response
mod Tests
use video_server.Base.{
  ℕ, suc, ◌+◌, Bool, List, [], ◌∷◌, ◌++◌, length, drop, replicate, ltb, ◌==◌, if◌then◌else◌,
}
use video_server.Base.Int.{ℤ}
use video_server.Base.Run.{Run, ok, abort}

-- `METHOD`
pub data Method : Type 0 where
  options describe announce get_parameter pause play record_to redirect setup set_parameter
        teardown :
      Method

-- `METHOD_KEY`
pub data MethodKey : Type 0 where
  url_addr cseq_key accept user_agent transport : MethodKey

-- `m_rtspURL` is set to null and never read.
pub record RtspRequest : Type 0 where
  pub cseq : List ℕ
  pub method : List ℕ
  pub pre_suffix : List ℕ
  pub suffix : List ℕ
  pub rtp_port : ℤ
  pub rtcp_port : ℤ

-- `RTSP_PARAM_STRING_MAX` and `RTSP_PARAM_STRING_MIN`
abbrev pub string_max : ℕ
string_max = 200

abbrev pub string_min : ℕ
string_min = 20

-- The text that `%s` reads from an array: up to the first zero byte.
abbrev pub c_string : List ℕ → List ℕ
c_string [] = []
c_string (c ∷ s) = if c == 0 then [] else c ∷ c_string s

-- Bytes written one by one from the start of an array of this size, and a zero byte behind them.
abbrev pub store : ℕ → List ℕ → List ℕ → Run (List ℕ)
store size text old =
    if ltb (length text) size then ok (text ++ 0 ∷ drop (length text + 1) old) else abort

-- `memset` of the first `n` bytes to zero.
abbrev pub clear_bytes : ℕ → List ℕ → List ℕ
clear_bytes n old = replicate n 0 ++ drop n old
