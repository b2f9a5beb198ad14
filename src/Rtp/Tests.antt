-- ===== src/Rtp/Tests.antt =====
-- Runs of the RTP code, and its theorems at concrete inputs.
use video_server.Base.{
  ℕ, ◌≡◌, refl, true, List, [], ◌∷◌, ◌++◌, arith, length, replicate, length-replicate,
}
use video_server.Rtp.Header.{
  h264_header, make_rtp_header, decode_header, decode_header-make_rtp_header,
}
use video_server.Rtp.Stream.{Rtp, init, ticked, send_nalu, send_frame, rtp_max_packet_len}
use video_server.Rtp.Stream.Packets.{Numbered, send_frame-Numbered}
use video_server.Rtp.Stream.Sizes.{Every, IsUnmarked, send_nalu-IsUnmarked}
use video_server.Base.{get_or}

abbrev two_units : List ℕ
two_units = 0 ∷ 0 ∷ 0 ∷ 1 ∷ 103 ∷ 7 ∷ 0 ∷ 0 ∷ 1 ∷ 104 ∷ []

abbrev large_unit : List ℕ
large_unit = 101 ∷ replicate 70000 9

abbrev started : Rtp
started = init true

length-large_unit : length large_unit ≡ 70001
length-large_unit = omega (arith, length-replicate {A = ℕ} 70000 9)

decode_header-make_rtp_header_example :
    decode_header (make_rtp_header (h264_header 101 3700 0x5f4df327) ++ 103 ∷ 7 ∷ [])
    ≡ h264_header 101 3700 0x5f4df327
decode_header-make_rtp_header_example =
    decode_header-make_rtp_header (h264_header 101 3700 0x5f4df327) (103 ∷ 7 ∷ []) record {
      version = omega arith;
      padding = omega arith;
      extension = omega arith;
      csrc_count = omega arith;
      payload_type = omega arith;
      marker = omega arith;
      seq = omega arith;
      timestamp = omega arith;
      ssrc = omega arith;
    }

send_frame-Numbered_example :
    Numbered
      (ticked started)
      (send_frame (0 ∷ 0 ∷ 1 ∷ large_unit) started).0
      (send_frame (0 ∷ 0 ∷ 1 ∷ large_unit) started).1
send_frame-Numbered_example =
    send_frame-Numbered (0 ∷ 0 ∷ 1 ∷ large_unit) started refl (omega arith)

send_nalu-IsUnmarked_example :
    Every IsUnmarked (send_nalu (length large_unit) large_unit started).0
    × (length (get_or (send_nalu (length large_unit) large_unit started).0 0 [])
        ≡ rtp_max_packet_len)
send_nalu-IsUnmarked_example =
    send_nalu-IsUnmarked large_unit started refl (omega (arith, length-large_unit))
