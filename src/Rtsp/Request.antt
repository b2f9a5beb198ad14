-- ===== src/Rtsp/Request.antt =====
-- code/rtsp/rtsprequest.cpp: the lines of a request, and what is kept of them.
-- The C library's `sscanf` is a parameter: the format, the line and the two integers before give those after.
pub mod Fields
pub mod Url
pub mod Whole
pub mod Reads
use video_server.Base.{
  ℕ, zero, suc, ◌+◌, Bool, true, false, not, ◌&&◌, ◌||◌, List, [], ◌∷◌, ◌++◌, Option, none, some,
  length, take, get_or, drop, ◌==◌, if◌then◌else◌,
}
use video_server.Base.Int.{ℤ, pos, negsuc}
use video_server.Base.Run.{◌>>◌, check, Run, ok, out_of_fuel, ◌>>=◌}
use video_server.Base.Scan.{line_end, find_word}
use video_server.Base.Text.{codes, Dictionary, lookup}
use video_server.Buffer.{Buffer, readable_bytes, retrieve_until}
use video_server.Buffer.Contents.{contents}
use video_server.Rtsp.{
  Method, options, describe, announce, get_parameter, pause, play, record_to, redirect, setup,
  set_parameter, teardown, MethodKey, url_addr, cseq_key, accept, user_agent, transport,
  RtspRequest, string_max, string_min, store, clear_bytes,
}

-- `REG_RTSP_METHODS`
abbrev pub method_words : List (List ℕ)
method_words =
    codes "OPTIONS"
    ∷ codes "DESCRIBE"
    ∷ codes "ANNOUNCE"
    ∷ codes "GET_PARAMETER"
    ∷ codes "PAUSE"
    ∷ codes "PLAY"
    ∷ codes "RECORD"
    ∷ codes "REDIRECT"
    ∷ codes "SETUP"
    ∷ codes "SET_PARAMETER"
    ∷ codes "TEARDOWN"
    ∷ []

-- `g_methodMatchTable`
abbrev pub method_match_table : Dictionary Method
method_match_table =
    (codes "OPTIONS", options)
    ∷ (codes "DESCRIBE", describe)
    ∷ (codes "GET_PARAMETER", get_parameter)
    ∷ (codes "PAUSE", pause)
    ∷ (codes "PLAY", play)
    ∷ (codes "REDIRECT", redirect)
    ∷ (codes "SET_PARAMETER", set_parameter)
    ∷ (codes "TEARDOWN", teardown)
    ∷ (codes "ANNOUNCE", announce)
    ∷ (codes "RECORD", record_to)
    ∷ (codes "SETUP", setup)
    ∷ []

-- `g_methodMatchTable[name]`: a missing name gets the value 0, and so does each later look at it.
abbrev pub method_of : List ℕ → Method
method_of name = elim (lookup name method_match_table) [ none ↦ options | some m ↦ m ]

-- `ERG_METHOD_KEY`: in the regular expression `\/` is a slash.
abbrev pub key_words : List (List ℕ)
key_words =
    codes "CSeq:"
    ∷ codes "rtsp://"
    ∷ codes "Accept:"
    ∷ codes "User-Agent:"
    ∷ codes "Transport:"
    ∷ []

-- `g_keyMatchTable`: here the backslashes stand in the key.
abbrev pub key_match_table : Dictionary MethodKey
key_match_table =
    (codes "rtsp:\\/\\/", url_addr)
    ∷ (codes "CSeq:", cseq_key)
    ∷ (codes "Accept:", accept)
    ∷ (codes "User-Agent:", user_agent)
    ∷ (codes "Transport:", transport)
    ∷ []

-- `g_keyMatchTable[word]`: a missing word gets the value 0, which is `RTSP_URL_ADDR`.
abbrev pub key_of : List ℕ → MethodKey
key_of word = elim (lookup word key_match_table) [ none ↦ url_addr | some k ↦ k ]

-- `line[i]` is the `r` of `rtsp:`.
pub starts_url : ℕ → List ℕ → Bool
starts_url c s =
    (c == b'r')
    && ((get_or s 0 0 == b't')
        && ((get_or s 1 0 == b's') && ((get_or s 2 0 == b'p') && (get_or s 3 0 == b':'))))

-- The loop over a line with a URL: the byte before, the rest, and `start_copy_presuf`; what is copied to
-- `m_preSuffix` and to `m_suffix`. Once the suffix begins, a URL start may set `start_copy_presuf` again.
pub scan_url : ℕ → List ℕ → Bool → Bool → List ℕ × List ℕ
scan_url before [] pre suf = ([], [])
scan_url before (c ∷ s) pre suf =
    let next = get_or s 0 0 in
    let pre' = pre || starts_url c s in
    let turn = pre' && ((c == b'/') && (not (next == b'/') && not (before == b'/'))) in
    let turned = scan_url c s false true in
    let kept = scan_url c s pre' suf in
    if turn
    then (c ∷ turned.0, turned.1)
    else if suf && (c == b' ')
    then ([], [])
    else ((if pre' then c ∷ kept.0 else kept.0), (if suf then c ∷ kept.1 else kept.1))

-- The loop over a line with `CSeq:`, and how many bytes of such a word are still to be passed over.
pub scan_cseq : ℕ → List ℕ → List ℕ
scan_cseq (suc skip) [] = []
scan_cseq (suc skip) (c ∷ s) = scan_cseq skip s
scan_cseq zero [] = []
scan_cseq zero (c ∷ s) =
    let word =
      (c == b'C')
      && ((get_or s 0 0 == b'S')
          && ((get_or s 1 0 == b'e') && ((get_or s 2 0 == b'q') && (get_or s 3 0 == b':')))) in
    let passed = scan_cseq 4 s in
    let kept = scan_cseq 0 s in
    if word then passed else if (c == b' ') || (c == 13) then kept else c ∷ kept

-- The `switch` of `processRequest_Common`.
pub common_key : MethodKey → List ℕ → RtspRequest → Run (Bool × RtspRequest)
common_key url_addr line r =
    let copied = scan_url 0 line false false in
    store string_max copied.0 r.pre_suffix >>= λ pre_suffix.
    store string_max copied.1 r.suffix >>= λ suffix.
    ok (true, record r { pre_suffix = pre_suffix; suffix = suffix })
common_key cseq_key line r =
    store string_min (scan_cseq 0 line) r.cseq >>= λ cseq. ok (true, record r { cseq = cseq })
common_key accept line r = ok (false, r)
common_key user_agent line r = ok (false, r)
common_key transport line r = ok (false, r)

-- `processRequest_Common`
pub process_request_common : List ℕ → RtspRequest → Run (Bool × RtspRequest)
process_request_common line r = elim (find_word key_words line) [
  | none ↦ ok (false, r)
  | some word ↦ common_key (key_of word) line r
]

-- `init`: both `memset`s of the long arrays take the size of the short one.
abbrev pub init_request : RtspRequest → RtspRequest
init_request r = record r {
  cseq = clear_bytes string_min r.cseq;
  method = [];
  pre_suffix = clear_bytes string_min r.pre_suffix;
  suffix = clear_bytes string_min r.suffix;
}

abbrev pub is_zero : ℤ → Bool
is_zero (pos n) = n == 0
is_zero (negsuc n) = false

-- Whether the handler of the method returns a value: `processRequest_Setup` does only for a line without
-- a key word, and flows off its end behind its `switch`.
abbrev pub returns : Method → List ℕ → Bool
returns setup line = elim (find_word key_words line) [ none ↦ true | some word ↦ false ]
returns _ line = true

module _ (sscanf : List ℕ → List ℕ → ℤ × ℤ → ℤ × ℤ) where
  -- `case RTSP_TRANSPORT`
  unfoldable pub scan_ports : List ℕ → RtspRequest → RtspRequest
  scan_ports line r =
      let first =
        sscanf (codes "Transport: RTP/AVP/UDP;unicast;client_port=%d-%d" ++ 13 ∷ 10 ∷ []) line
          (r.rtp_port, r.rtcp_port) in
      let second =
        sscanf (codes "Transport: RTP/AVP;unicast;client_port=%d-%d" ++ 13 ∷ 10 ∷ []) line first in
      let ports = if is_zero first.0 || is_zero first.1 then second else first in
      record r { rtp_port = ports.0; rtcp_port = ports.1 }

  abbrev pub setup_key : MethodKey → List ℕ → RtspRequest → RtspRequest
  setup_key transport line r = scan_ports line r
  setup_key _ line r = r

  -- `processRequest_Setup`; its result, which no caller reads, is left out. Where it flows off its end
  -- is what `returns` says.
  unfoldable pub process_request_setup : List ℕ → RtspRequest → RtspRequest
  process_request_setup line r = elim (find_word key_words line) [
    | none ↦ r
    | some word ↦ setup_key (key_of word) line r
  ]

  -- The `switch` of `parse` on the method.
  abbrev pub by_method : Method → List ℕ → RtspRequest → RtspRequest
  by_method setup line r = process_request_setup line r
  by_method _ line r = r

  -- One line of a request. A handler that flows off its end is undefined behaviour: an `abort` here.
  pub process_line : List ℕ → RtspRequest → Run RtspRequest
  process_line line r = process_request_common line r >>= λ (done, r').
      let method = method_of r'.method in
      if done then ok r' else check (returns method line) >> ok (by_method method line r')

  -- `while (buff.ReadableBytes())`
  pub parse_loop : ℕ → RtspRequest → Buffer → Run (RtspRequest × Buffer)
  parse_loop zero r b = out_of_fuel
  parse_loop (suc fuel) r b =
      let text = contents b in
      let end = line_end text in
      let round = process_line (take end text) r >>= λ r'.
      let later = retrieve_until (b.read_pos + end + 2) b >>= λ b'. parse_loop fuel r' b' in
      if end == length text then ok (r', b) else later in
      if readable_bytes b == 0 then ok (r, b) else round

  -- `parse`, with the line that the method is looked for in.
  pub parse : RtspRequest → Buffer → List ℕ → Run (Bool × (RtspRequest × Buffer))
  parse r b line =
      let begun : RtspRequest = elim (find_word method_words line) [
        | none ↦ r
        | some word ↦ record r { method = word }
      ] in
      if readable_bytes b == 0
      then ok (false, (r, b))
      else parse_loop (readable_bytes b + 1) begun b >>= λ p. ok (true, p)
