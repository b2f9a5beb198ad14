-- ===== src/Rtsp/Response/Kept.antt =====
-- What a reply keeps beyond the request: the allocation of the SDP, the file's path, the client's address.
use mathlib.Core.List.{append_assoc}
use video_server.Base.{
  ℕ, ◌+◌, ◌≤◌, ◌<◌, ◌≡◌, refl, sym, false, List, ◌∷◌, ◌++◌, arith, length, take, drop,
  drop-append_le, length-append, length-take, le→leb,
}
use video_server.Base.Run.{Ensures, ensures}
use video_server.Base.Scan.{has_byte-append, has_byte-drop}
use video_server.Base.Text.{has_byte}
use video_server.Rtsp.Request.Fields.{c_string-append}
use video_server.Rtsp.{c_string}
use video_server.Rtsp.Response.{
  RtspResponse, generate_sdp_description, sdp_length, session_end, session_lines, media_lines,
  init_ip,
}

length-session_lines : (stamp : List ℕ) → length (session_lines stamp) ≡ 292 + length stamp
length-session_lines stamp =
    let size : length session_end ≡ 283 = refl in
    omega (arith, size, length-append stamp session_end)

-- `generateSDPDescription` writes more bytes than it allocates, whatever the clock says: the text with
-- its zero byte is at least 100 bytes longer than `sdpLength`.
pub generate_sdp_description_overruns :
    (stamp : List ℕ) → sdp_length + 100 ≤ length (generate_sdp_description stamp) + 1
unfolding generate_sdp_description
generate_sdp_description_overruns stamp =
    let first = take 403 (session_lines stamp) in
    let sizes = length-append first (take 399 media_lines) in
    let size : length (take 399 media_lines) ≡ 211 = refl in
    omega (arith, sizes, size, length-take 403 (session_lines stamp), length-session_lines stamp)

-- `init` puts an address over the first bytes of the one kept before, and does not end it: an address
-- that is shorter than the one before is followed by the other's last bytes.
pub init_ip_lem :
    (text before rest : List ℕ) (r : RtspResponse)
    → r.ip ≡ before ++ 0 ∷ rest
    → has_byte 0 text ≡ false
    → has_byte 0 before ≡ false
    → length text ≤ length before
    → length before < 20
    → Ensures (λ r'. c_string r'.ip ≡ text ++ drop (length text) before) (init_ip text r)
unfolding init_ip
init_ip_lem text before rest r held h i shorter fits =
    let old = drop (length text) before in
    let short = le→leb (length text) 20 (omega (arith, shorter, fits)) in
    let kept : drop (length text) (before ++ 0 ∷ rest) ≡ old ++ 0 ∷ rest =
      drop-append_le (length text) before (0 ∷ rest) shorter in
    let clean = has_byte-append 0 text old h (has_byte-drop 0 (length text) before i) in
    rw (short, held, kept, sym (append_assoc text old (0 ∷ rest)))
      (ensures (c_string-append (text ++ old) rest clean))
