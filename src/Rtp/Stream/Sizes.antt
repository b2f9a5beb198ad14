-- ===== src/Rtp/Stream/Sizes.antt =====
-- The sizes and the FU marks of the packets of one frame.
use Prim.Native.Nat.{bit_or}
use video_server.Base.{
  ℕ, zero, suc, ◌+◌, ◌*◌, ◌≤◌, ◌<◌, ◌≡◌, refl, true, false, inl, inr, List, [], ◌∷◌, ◌++◌, arith,
  length, get_or, take, drop, ltb, ltb→lt, ◌==◌, Bool-cases, length-take, length-drop,
}
use video_server.Base.Bits.{bit_and-mask, all_below, all_below-at}
use video_server.Rtp.Header.{make_rtp_header}
use video_server.Rtp.Stream.{
  Rtp, rtp_max_data_size, rtp_max_packet_len, fu_e_mask, fu_indicator, next_seq, send_nalu,
}
use video_server.Rtp.Stream.Fragments.{
  fu_packet, fu_packets, nalu_type, remainder_packets, seq_after, packet_num_of, remain_of,
  single_packet, send_nalu-eq-nalu_packets,
}

module _ (P : List ℕ → Type 0) where
  -- `P` of every packet.
  abbrev pub Every : List (List ℕ) → Type 0
  Every [] = Unit
  Every (p ∷ ps) = P p × Every ps

  Every-append : (ps qs : List (List ℕ)) → Every ps → Every qs → Every (ps ++ qs)
  Every-append [] qs a b = b
  Every-append (p ∷ ps) qs a b = (a.0, Every-append ps qs a.1 b)

-- No longer than `RTP_MAX_PACKET_LEN`.
abbrev pub IsSized : List ℕ → Type 0
IsSized p = length p ≤ rtp_max_packet_len

-- A fragment without the start mark in its FU header.
abbrev pub IsUnmarked : List ℕ → Type 0
IsUnmarked p = IsSized p × (get_or p 13 0 < 128)

length-single_packet : (nalu : List ℕ) (r : Rtp) → length (single_packet nalu r) ≡ 12 + length nalu
unfolding make_rtp_header
length-single_packet nalu r = omega arith

fu_header-fu_packet :
    (nalu : List ℕ) (header : ℕ) (payload : List ℕ) (r : Rtp)
    → get_or (fu_packet nalu header payload r) 13 0 ≡ header
unfolding make_rtp_header
fu_header-fu_packet nalu header payload r = refl

nalu_type_small : (nalu : List ℕ) → nalu_type nalu < 32
nalu_type_small nalu = omega (arith, bit_and-mask 5 (get_or nalu 0 0))

end_mark_below : all_below 32 (λ t. ltb (bit_or t fu_e_mask) 128) ≡ true
end_mark_below = refl

end_mark_small : (t : ℕ) → t < 32 → bit_or t fu_e_mask < 128
end_mark_small t h =
    ltb→lt (bit_or t fu_e_mask) 128
      (all_below-at 32 (λ t. ltb (bit_or t fu_e_mask) 128) end_mark_below t h)

fu_packet-IsUnmarked :
    (nalu : List ℕ) (header : ℕ) (payload : List ℕ) (r : Rtp)
    → header < 128
    → length payload ≤ rtp_max_data_size
    → IsUnmarked (fu_packet nalu header payload r)
fu_packet-IsUnmarked nalu header payload r h k = (
  omega (arith, length-single_packet (fu_indicator nalu ∷ header ∷ payload) r),
  omega (arith, fu_header-fu_packet nalu header payload r),
)

fu_packets-IsUnmarked :
    (n at : ℕ) (nalu : List ℕ) (r : Rtp) → Every IsUnmarked (fu_packets n at nalu r)
fu_packets-IsUnmarked zero at nalu r = record {}
fu_packets-IsUnmarked (suc n) at nalu r = (
  fu_packet-IsUnmarked nalu (nalu_type nalu) (take rtp_max_data_size (drop at nalu)) r
      (omega (arith, nalu_type_small nalu))
      (omega (arith, length-take rtp_max_data_size (drop at nalu))),
  fu_packets-IsUnmarked n (at + rtp_max_data_size) nalu (next_seq r),
)

remainder_packets-IsUnmarked :
    (remain at : ℕ) (nalu : List ℕ) (r : Rtp)
    → remain ≤ rtp_max_data_size
    → Every IsUnmarked (remainder_packets remain at nalu r)
remainder_packets-IsUnmarked remain at nalu r h = elim (Bool-cases (ltb 0 remain)) [
  | inl more ↦ rw more (
    fu_packet-IsUnmarked nalu (bit_or (nalu_type nalu) fu_e_mask) (take remain (drop at nalu)) r
        (end_mark_small (nalu_type nalu) (nalu_type_small nalu))
        (omega (arith, length-take remain (drop at nalu))),
    record {},
  )
  | inr nothing ↦ rw nothing (record {})
]

length-first_fragment :
    (n : ℕ) (nalu : List ℕ) (qs : List (List ℕ)) (r : Rtp)
    → 0 < n
    → rtp_max_data_size < length nalu
    → length (get_or (fu_packets n 1 nalu r ++ qs) 0 []) ≡ rtp_max_packet_len
length-first_fragment zero nalu qs r more large = absurd (omega arith)
length-first_fragment (suc n) nalu qs r more large =
    let chunk = take rtp_max_data_size (drop 1 nalu) in
    omega (
      arith,
      length-single_packet (fu_indicator nalu ∷ nalu_type nalu ∷ chunk) r,
      length-take rtp_max_data_size (drop 1 nalu),
      length-drop 1 nalu,
    )

-- With the socket open, a NAL unit of over `RTP_MAX_DATA_SIZE` bytes goes out in packets of at most
-- `RTP_MAX_PACKET_LEN` bytes, the first of just that size, none with the start mark of an FU header.
pub send_nalu-IsUnmarked :
    (nalu : List ℕ) (r : Rtp)
    → r.sock_open ≡ true
    → rtp_max_data_size < length nalu
    → Every IsUnmarked (send_nalu (length nalu) nalu r).0
      × (length (get_or (send_nalu (length nalu) nalu r).0 0 []) ≡ rtp_max_packet_len)
send_nalu-IsUnmarked nalu r live large =
    let n = packet_num_of nalu in
    let rest =
      remainder_packets (remain_of nalu) (1 + n * rtp_max_data_size) nalu (seq_after n r) in
    let several : (n == 0) ≡ false = ground arith in
    rw (send_nalu-eq-nalu_packets nalu r live, several)
      (
        Every-append IsUnmarked (fu_packets n 1 nalu r) rest (fu_packets-IsUnmarked n 1 nalu r) (
            remainder_packets-IsUnmarked (remain_of nalu) (1 + n * rtp_max_data_size) nalu
              (seq_after n r) (omega arith)),
        length-first_fragment n nalu rest r (omega arith) large,
      )
