-- ===== src/Rtp/Stream/Packets.antt =====
-- The packets of one frame: their headers, their sizes and their FU marks.
use Prim.Native.Nat.{bit_or}
use video_server.Base.{
  ℕ, zero, suc, ◌+◌, ◌*◌, ◌^◌, ◌<◌, ◌≡◌, sym, true, inl, inr, List, [], ◌∷◌, ◌++◌, arith, take,
  drop, ltb, ◌==◌, Bool-cases, length-drop,
}
use video_server.Rtp.Header.{h264_header, decode_header, decode_header-make_rtp_header}
use video_server.Rtp.Stream.{
  Rtp, rtp_max_data_size, fu_e_mask, fu_indicator, next_seq, ticked, start_code_len, send_frame,
}
use video_server.Rtp.Stream.Fragments.{
  fu_packet, fu_packets, nalu_type, remainder_packets, seq_after, packet_num_of, remain_of,
  single_packet, seq_after_remainder, nalu_packets, send_nalu-eq-nalu_packets,
}

-- A packet with the header that `r` gives it.
abbrev pub IsHeaded : Rtp → List ℕ → Type 0
IsHeaded r p = decode_header p ≡ h264_header (next_seq r).seq r.timestamp r.ssrc

-- Packets numbered one after the other, from state to state.
pub data Numbered : Rtp → List (List ℕ) → Rtp → Type 0 where
  done : (r : Rtp) → Numbered r [] r
  next :
      (r : Rtp) (p : List ℕ)
      → IsHeaded r p
      → (ps : List (List ℕ)) (r' : Rtp) → Numbered (next_seq r) ps r'
      → Numbered r (p ∷ ps) r'

-- The numbers of a state fit their fields.
abbrev pub Fits : Rtp → Type 0
Fits r = (r.timestamp < 2 ^ 32) × (r.ssrc < 2 ^ 32)

headed : (r : Rtp) (payload : List ℕ) → Fits r → IsHeaded r (single_packet payload r)
headed r payload fits =
    decode_header-make_rtp_header (h264_header (next_seq r).seq r.timestamp r.ssrc) payload record {
      version = omega arith;
      padding = omega arith;
      extension = omega arith;
      csrc_count = omega arith;
      payload_type = omega arith;
      marker = omega arith;
      seq = omega arith;
      timestamp = fits.0;
      ssrc = fits.1;
    }

one_packet :
    (r : Rtp) (payload : List ℕ) → Fits r → Numbered r (single_packet payload r ∷ []) (next_seq r)
one_packet r payload fits =
    next r (single_packet payload r) (headed r payload fits) [] (next_seq r) (done (next_seq r))

Numbered-append :
    (r : Rtp) (ps qs : List (List ℕ)) (r1 r2 : Rtp)
    → Numbered r ps r1
    → Numbered r1 qs r2
    → Numbered r (ps ++ qs) r2
Numbered-append r ps qs r1 r2 (done s) b = b
Numbered-append r ps qs r1 r2 (next s p h ps' r' a) b =
    next r p h (ps' ++ qs) r2 (Numbered-append (next_seq r) ps' qs r1 r2 a b)

fu_packets-Numbered :
    (n at : ℕ) (nalu : List ℕ) (r : Rtp)
    → Fits r
    → Numbered r (fu_packets n at nalu r) (seq_after n r)
fu_packets-Numbered zero at nalu r fits = done r
fu_packets-Numbered (suc n) at nalu r fits =
    next r (fu_packet nalu (nalu_type nalu) (take rtp_max_data_size (drop at nalu)) r)
      (headed r (fu_indicator nalu ∷ nalu_type nalu ∷ take rtp_max_data_size (drop at nalu)) fits)
      (fu_packets n (at + rtp_max_data_size) nalu (next_seq r)) (seq_after n (next_seq r))
      (fu_packets-Numbered n (at + rtp_max_data_size) nalu (next_seq r) fits)

seq_after-Fits : (n : ℕ) (r : Rtp) → Fits r → Fits (seq_after n r)
seq_after-Fits zero r fits = fits
seq_after-Fits (suc n) r fits = seq_after-Fits n (next_seq r) fits

remainder_packets-Numbered :
    (remain at : ℕ) (nalu : List ℕ) (r : Rtp)
    → Fits r
    → Numbered r (remainder_packets remain at nalu r) (seq_after_remainder remain r)
remainder_packets-Numbered remain at nalu r fits = elim (Bool-cases (ltb 0 remain)) [
  | inl more ↦ rw more (
      one_packet r
        (fu_indicator nalu ∷ bit_or (nalu_type nalu) fu_e_mask ∷ take remain (drop at nalu)) fits)
  | inr nothing ↦ rw nothing (done r)
]

nalu_packets-Numbered :
    (nalu : List ℕ) (r : Rtp) → Fits r → Numbered r (nalu_packets nalu r).0 (nalu_packets nalu r).1
nalu_packets-Numbered nalu r fits = elim (Bool-cases (packet_num_of nalu == 0)) [
  | inl one ↦ rw one (one_packet r nalu fits)
  | inr more ↦ rw more (
      Numbered-append r (fu_packets (packet_num_of nalu) 1 nalu r)
        (remainder_packets (remain_of nalu) (1 + packet_num_of nalu * rtp_max_data_size) nalu
          (seq_after (packet_num_of nalu) r))
        (seq_after (packet_num_of nalu) r)
        (seq_after_remainder (remain_of nalu) (seq_after (packet_num_of nalu) r))
        (fu_packets-Numbered (packet_num_of nalu) 1 nalu r fits)
        (remainder_packets-Numbered (remain_of nalu) (1 + packet_num_of nalu * rtp_max_data_size)
          nalu (seq_after (packet_num_of nalu) r) (seq_after-Fits (packet_num_of nalu) r fits)))
]

-- With the socket open and an SSRC below 2^32, the packets of a frame carry consecutive sequence
-- numbers, wrapping at 2^16, and the frame's timestamp, 3600 after the one before.
pub send_frame-Numbered :
    (f : List ℕ) (r : Rtp)
    → r.sock_open ≡ true
    → r.ssrc < 2 ^ 32
    → Numbered (ticked r) (send_frame f r).0 (send_frame f r).1
send_frame-Numbered f r live small =
    rw
      (
        sym (length-drop (start_code_len f) f),
        send_nalu-eq-nalu_packets (drop (start_code_len f) f) (ticked r) live,
      )
      (nalu_packets-Numbered (drop (start_code_len f) f) (ticked r) (omega arith, small))
