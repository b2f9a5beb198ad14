-- ===== src/Rtp/Stream/Fragments.antt =====
-- One frame as packets: the fragments of a unit, and their headers and numbers.
use Prim.Native.Nat.{bit_and, bit_or}
use video_server.Base.{
  ℕ, zero, suc, ◌+◌, ◌-◌, ◌*◌, ◌/◌, ◌%◌, ◌<◌, ◌≡◌, refl, sym, ap, ◌∙◌, Bool, true, false, ◌&&◌, inl,
  inr, List, [], ◌∷◌, ◌++◌, arith, length, get_or, set, take, drop, ltb, ◌==◌, if◌then◌else◌,
  lt→ltb, Bool-cases, set-set_self, set-set_ne, take-length,
}
use video_server.Rtp.Header.{make_rtp_header, h264_header}
use video_server.Rtp.Stream.{
  Rtp, rtp_max_data_size, nalu_type_mask, fu_s_mask, fu_e_mask, next_seq, pack_rtp, mark_fu,
  type_fu, fu_indicator, fragment_loop, send_remainder, send_nalu,
}

-- A fragment of `nalu` with a given FU header and payload.
abbrev pub fu_packet : List ℕ → ℕ → List ℕ → Rtp → List ℕ
fu_packet nalu fu_header payload r =
    make_rtp_header (h264_header (next_seq r).seq r.timestamp r.ssrc)
    ++ (fu_indicator nalu ∷ fu_header ∷ payload)

abbrev pub nalu_type : List ℕ → ℕ
nalu_type nalu = bit_and (get_or nalu 0 0) nalu_type_mask

-- The full fragments from `at` on, all with the bare type for an FU header.
abbrev pub fu_packets : ℕ → ℕ → List ℕ → Rtp → List (List ℕ)
fu_packets zero at nalu r = []
fu_packets (suc n) at nalu r =
    fu_packet nalu (nalu_type nalu) (take rtp_max_data_size (drop at nalu)) r
    ∷ fu_packets n (at + rtp_max_data_size) nalu (next_seq r)

abbrev pub seq_after : ℕ → Rtp → Rtp
seq_after zero r = r
seq_after (suc n) r = seq_after n (next_seq r)

-- The assignments to `temData` undo the marks that were put there before.
type_fu-mark_fu :
    (indicator header mask : ℕ) (p : List ℕ)
    → type_fu indicator header (mark_fu mask p) ≡ type_fu indicator header p
type_fu-mark_fu indicator header mask p =
    let v = bit_or (get_or p 13 0) mask in
    set-set_ne (set p 13 v) 12 13 indicator header refl
    ∙ ap (λ q. set q 12 indicator) (set-set_self p 13 v header)
    ∙ sym (set-set_ne p 12 13 indicator header refl)

type_fu-marked :
    (indicator header : ℕ) (first final : Bool) (p : List ℕ)
    → type_fu indicator header
        (if first then mark_fu fu_s_mask p else if final then mark_fu fu_e_mask p else p)
      ≡ type_fu indicator header p
type_fu-marked indicator header true final p = type_fu-mark_fu indicator header fu_s_mask p
type_fu-marked indicator header false true p = type_fu-mark_fu indicator header fu_e_mask p
type_fu-marked indicator header false false p = refl

type_fu-pack_rtp :
    (nalu payload : List ℕ) (header : ℕ) (r : Rtp)
    → type_fu (fu_indicator nalu) header (pack_rtp payload true r).0
      ≡ fu_packet nalu header payload r
unfolding pack_rtp make_rtp_header
type_fu-pack_rtp nalu payload header r = refl

pack_rtp_state :
    (payload : List ℕ) (group : Bool) (r : Rtp) → (pack_rtp payload group r).1 ≡ next_seq r
unfolding pack_rtp
pack_rtp_state payload group r = refl

-- One round of the loop, with `rest` for what the other rounds give.
fragment_loop_round :
    (n i num remain at : ℕ) (nalu : List ℕ) (r : Rtp)
    → r.sock_open ≡ true
    → 0 < num
    → fragment_loop (suc n) i num remain at nalu r ≡ (
        let rest = fragment_loop n (i + 1) num remain (at + rtp_max_data_size) nalu (next_seq r) in
        (
          fu_packet nalu (nalu_type nalu) (take rtp_max_data_size (drop at nalu)) r ∷ rest.0,
          rest.1,
        ))
unfolding fragment_loop
fragment_loop_round n i num remain at nalu r live h =
    let chunk = take rtp_max_data_size (drop at nalu) in
    rw (
      lt→ltb 0 num h,
      pack_rtp_state chunk true r,
      type_fu-marked (fu_indicator nalu) (nalu_type nalu) (i == 0) ((i == num - 1) && (remain == 0))
          (pack_rtp chunk true r).0,
      type_fu-pack_rtp nalu chunk (nalu_type nalu) r,
      live,
    )

fragment_loop-eq-fu_packets :
    (n i num remain at : ℕ) (nalu : List ℕ) (r : Rtp)
    → r.sock_open ≡ true
    → 0 < num
    → fragment_loop n i num remain at nalu r ≡ (fu_packets n at nalu r, seq_after n r)
fragment_loop-eq-fu_packets zero i num remain at nalu r live h = unfold fragment_loop in refl
fragment_loop-eq-fu_packets (suc n) i num remain at nalu r live h =
    fragment_loop_round n i num remain at nalu r live h
    ∙ rw (
        fragment_loop-eq-fu_packets n (i + 1) num remain (at + rtp_max_data_size) nalu (next_seq r)
          live h)

-- The last packet, where something is left.
abbrev pub remainder_packets : ℕ → ℕ → List ℕ → Rtp → List (List ℕ)
remainder_packets remain at nalu r =
    if ltb 0 remain
    then fu_packet nalu (bit_or (nalu_type nalu) fu_e_mask) (take remain (drop at nalu)) r ∷ []
    else []

abbrev pub seq_after_remainder : ℕ → Rtp → Rtp
seq_after_remainder remain r = if ltb 0 remain then next_seq r else r

send_remainder-eq-remainder_packets :
    (num remain at : ℕ) (nalu : List ℕ) (r : Rtp)
    → r.sock_open ≡ true
    → 0 < num
    → send_remainder num remain at nalu r
      ≡ (remainder_packets remain at nalu r, seq_after_remainder remain r)
unfolding send_remainder
send_remainder-eq-remainder_packets num remain at nalu r live h =
    let chunk = take remain (drop at nalu) in
    elim (Bool-cases (ltb 0 remain)) [
      | inl more ↦
          rw
            (
              more,
              lt→ltb 0 num h,
              pack_rtp_state chunk true r,
              type_fu-pack_rtp nalu chunk (bit_or (nalu_type nalu) fu_e_mask) r,
              live,
            )
            refl
      | inr done ↦ rw done refl
    ]

abbrev pub packet_num_of : List ℕ → ℕ
packet_num_of nalu = (length nalu - 1) / rtp_max_data_size

abbrev pub remain_of : List ℕ → ℕ
remain_of nalu = (length nalu - 1) % rtp_max_data_size

abbrev pub single_packet : List ℕ → Rtp → List ℕ
single_packet nalu r = make_rtp_header (h264_header (next_seq r).seq r.timestamp r.ssrc) ++ nalu

-- What is sent for a NAL unit, and the state left, in the two cases of the test.
abbrev pub nalu_packets : List ℕ → Rtp → List (List ℕ) × Rtp
nalu_packets nalu r =
    let n = packet_num_of nalu in
    let remain = remain_of nalu in
    if n == 0 then (single_packet nalu r ∷ [], next_seq r) else (
      fu_packets n 1 nalu r
          ++ remainder_packets remain (1 + n * rtp_max_data_size) nalu (seq_after n r),
      seq_after_remainder remain (seq_after n r),
    )

seq_after_open : (n : ℕ) (r : Rtp) → (seq_after n r).sock_open ≡ r.sock_open
seq_after_open zero r = refl
seq_after_open (suc n) r = seq_after_open n (next_seq r)

pack_rtp_single :
    (payload : List ℕ) (r : Rtp) → pack_rtp payload false r ≡ (single_packet payload r, next_seq r)
unfolding pack_rtp
pack_rtp_single payload r = refl

pub send_nalu-eq-nalu_packets :
    (nalu : List ℕ) (r : Rtp)
    → r.sock_open ≡ true
    → send_nalu (length nalu) nalu r ≡ nalu_packets nalu r
unfolding send_nalu
send_nalu-eq-nalu_packets nalu r live =
    let n = packet_num_of nalu in
    let remain = remain_of nalu in
    elim (Bool-cases (n == 0)) [
      | inl one ↦
          let none_more : ltb 0 n ≡ false = ground arith in
          rw
            (
              one,
              none_more,
              pack_rtp_single (take (length nalu) nalu) r,
              take-length (length nalu) nalu (omega arith),
            )
            refl
      | inr more ↦
          let some_more : 0 < n = ground arith in
          rw
            (
              more,
              fragment_loop-eq-fu_packets n 0 n remain 1 nalu r live some_more,
              send_remainder-eq-remainder_packets n remain (1 + n * rtp_max_data_size) nalu
                  (seq_after n r) (seq_after_open n r ∙ live) some_more,
            )
            refl
    ]
