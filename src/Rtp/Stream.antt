-- ===== src/Rtp/Stream.antt =====
-- code/rtp/rtp.h and rtp.cpp: `packRTP` and `pushStream`.
-- The array `rtpData` is a list of the bytes that a call of `packRTP` writes into it: `sendto` is
-- given just those. Pauses, log lines and the sockets' own calls are left out; the packets are
-- what `sendto` is handed, whether it takes them or not (its result is only counted; over UDP it refuses a
-- packet of more than 65507 bytes, which the first one of a unit in parts is), and `sock_open` is the test
-- `m_rtpSockFd > 0`.
pub mod Fragments
pub mod Packets
pub mod Sizes
pub mod Serve
use Prim.Native.Nat.{bit_and, bit_or}
use video_server.Base.{
  ℕ, zero, suc, ◌+◌, ◌-◌, ◌*◌, ◌/◌, ◌%◌, ◌^◌, Bool, true, false, ◌&&◌, List, [], ◌∷◌, ◌++◌, length,
  get_or, set, take, drop, replicate, ltb, leb, ◌==◌, if◌then◌else◌,
}
use video_server.Base.Int.{ℤ, pos, negsuc}
use video_server.Base.Run.{Run, ok, out_of_fuel, ◌>>=◌}
use video_server.Rtp.H264.{Frame, frame, finished, malformed, is_start_code_4, get_next_frame}
use video_server.Rtp.Header.{make_rtp_header, h264_header, rtp_header_size}

abbrev pub max_udp_packet_size : ℕ
max_udp_packet_size = 65536

abbrev pub fu_size : ℕ
fu_size = 2

abbrev pub rtp_max_data_size : ℕ
rtp_max_data_size = max_udp_packet_size - 8 - 20 - rtp_header_size - fu_size

abbrev pub rtp_max_packet_len : ℕ
rtp_max_packet_len = rtp_max_data_size + rtp_header_size + fu_size

abbrev pub nalu_f_nri_mask : ℕ
nalu_f_nri_mask = 0xe0

abbrev pub nalu_type_mask : ℕ
nalu_type_mask = 0x1f

abbrev pub fu_s_mask : ℕ
fu_s_mask = 0x80

abbrev pub fu_e_mask : ℕ
fu_e_mask = 0x40

abbrev pub set_fu_a_mask : ℕ
set_fu_a_mask = 0x1c

pub record Rtp : Type 0 where
  pub seq : ℕ
  pub timestamp : ℕ
  pub ssrc : ℕ
  pub sock_open : Bool

-- The part of `RTP::init` that sets the stream's numbers.
abbrev pub init : Bool → Rtp
init sock_open = record { seq = 100; timestamp = 100; ssrc = 0x5f4df327; sock_open = sock_open }

abbrev pub next_seq : Rtp → Rtp
next_seq r = record r { seq = (r.seq + 1) % 2 ^ 16 }

-- `packRTP`: the bytes written, whose number it returns, and the RTP state.
pub pack_rtp : List ℕ → Bool → Rtp → List ℕ × Rtp
pack_rtp src is_group r =
    let r' = next_seq r in
    let header = make_rtp_header (h264_header r'.seq r'.timestamp r'.ssrc) in
    (if is_group then header ++ (replicate fu_size 0 ++ src) else header ++ src, r')

-- `temData[1] |= mask`
abbrev pub mark_fu : ℕ → List ℕ → List ℕ
mark_fu mask p = set p (rtp_header_size + 1) (bit_or (get_or p (rtp_header_size + 1) 0) mask)

-- `temData[0] = …; temData[1] = …;`
abbrev pub type_fu : ℕ → ℕ → List ℕ → List ℕ
type_fu indicator header p = set (set p rtp_header_size indicator) (rtp_header_size + 1) header

abbrev pub fu_indicator : List ℕ → ℕ
fu_indicator nalu = bit_or (bit_and (get_or nalu 0 0) nalu_f_nri_mask) set_fu_a_mask

-- `sendto`, if the socket is open
abbrev pub send : Rtp → List ℕ → List (List ℕ)
send r p = if r.sock_open then p ∷ [] else []

-- The `for` loop over the full fragments: the rounds left, `i`, and `pos` (here `at`).
pub fragment_loop : ℕ → ℕ → ℕ → ℕ → ℕ → List ℕ → Rtp → List (List ℕ) × Rtp
fragment_loop zero i packet_num remain at nalu r = ([], r)
fragment_loop (suc rounds) i packet_num remain at nalu r =
    let (p, r') = pack_rtp (take rtp_max_data_size (drop at nalu)) (ltb 0 packet_num) r in
    let marked =
      if i == 0
      then mark_fu fu_s_mask p
      else if (i == packet_num - 1) && (remain == 0)
      then mark_fu fu_e_mask p
      else p in
    let typed = type_fu (fu_indicator nalu) (bit_and (get_or nalu 0 0) nalu_type_mask) marked in
    let (ps, r'') =
      fragment_loop rounds (i + 1) packet_num remain (at + rtp_max_data_size) nalu r' in
    (send r typed ++ ps, r'')

-- The packet for what is left after the full fragments.
pub send_remainder : ℕ → ℕ → ℕ → List ℕ → Rtp → List (List ℕ) × Rtp
send_remainder packet_num remain at nalu r =
    let (p, r') = pack_rtp (take remain (drop at nalu)) (ltb 0 packet_num) r in
    let typed =
      type_fu (fu_indicator nalu) (bit_or (bit_and (get_or nalu 0 0) nalu_type_mask) fu_e_mask) p in
    if ltb 0 remain then (send r typed, r') else ([], r)

-- What `pushStream` does with `dataSize` and the NAL unit's bytes. No data gives -1 for
-- `dataSize - 1`, and takes the first branch as 0 does.
pub send_nalu : ℕ → List ℕ → Rtp → List (List ℕ) × Rtp
send_nalu data_size nalu r =
    let packet_num = (data_size - 1) / rtp_max_data_size in
    let remain = (data_size - 1) % rtp_max_data_size in
    let (whole, r1) = pack_rtp (take data_size nalu) (ltb 0 packet_num) r in
    let (full, r2) = fragment_loop packet_num 0 packet_num remain 1 nalu r in
    let (rest, r3) =
      send_remainder packet_num remain (1 + packet_num * rtp_max_data_size) nalu r2 in
    if packet_num == 0 then (whole ∷ [], r1) else (full ++ rest, r3)

abbrev pub start_code_len : List ℕ → ℕ
start_code_len f = if is_start_code_4 f (length f) then 4 else 3

abbrev pub ticked : Rtp → Rtp
ticked r = record r { timestamp = (r.timestamp + 3600) % 2 ^ 32 }

-- One round of `pushStream` with a frame: the packets sent, and the RTP state.
abbrev pub send_frame : List ℕ → Rtp → List (List ℕ) × Rtp
send_frame f r = send_nalu (length f - start_code_len f) (drop (start_code_len f) f) (ticked r)

-- `pushStream` from a place in the file: its result and all the packets sent.
pub push_loop : ℕ → List ℕ → Rtp → Run (ℤ × List (List ℕ))
push_loop zero cur r = out_of_fuel
push_loop (suc fuel) cur r =
    let (got, rest) = get_next_frame cur in
    elim got [
      | frame f ↦ push_loop fuel rest (send_frame f r).1 >>= λ (code, ps).
          ok (code, (send_frame f r).0 ++ ps)
      | finished ↦ ok (pos 0, [])
      | malformed ↦ ok (negsuc 0, [])
    ]

-- Each frame takes three bytes of the file at least, so its length is fuel enough.
pub push_stream : List ℕ → Rtp → Run (ℤ × List (List ℕ))
push_stream file r = push_loop (length file + 1) file r
