-- ===== src/Rtsp/Request/Fields.antt =====
-- The lines with a sequence number or a URL: the fields of a request are what the client wrote.
use video_server.Base.{
  ℕ, ◌+◌, ◌<◌, ◌≡◌, refl, true, false, List, [], ◌∷◌, ◌++◌, arith, length, drop, lt→ltb,
}
use video_server.Base.Run.{Ensures, ensures, Ensures-bind}
use video_server.Base.Text.{codes, has_byte}
use video_server.Rtsp.{RtspRequest, c_string, store}
use video_server.Rtsp.Request.{scan_cseq, common_key, process_request_common}

-- The text is left as it is by the loop over a line with a sequence number.
pub record IsPlain (s : List ℕ) : Type 0 where
  pub no_zero : has_byte 0 s ≡ false
  pub no_letter : has_byte b'C' s ≡ false
  pub no_space : has_byte b' ' s ≡ false
  pub no_return : has_byte 13 s ≡ false

scan_cseq-plain :
    (s : List ℕ)
    → has_byte b'C' s ≡ false
    → has_byte b' ' s ≡ false
    → has_byte 13 s ≡ false
    → scan_cseq 0 s ≡ s
unfolding scan_cseq
scan_cseq-plain [] h i j = refl
scan_cseq-plain (c ∷ s) h i j = ground (arith, scan_cseq-plain s)

pub c_string-append : (s rest : List ℕ) → has_byte 0 s ≡ false → c_string (s ++ 0 ∷ rest) ≡ s
c_string-append [] rest h = refl
c_string-append (c ∷ s) rest h = ground (arith, c_string-append s rest)

pub store_keeps :
    (size : ℕ) (s old : List ℕ)
    → has_byte 0 s ≡ false
    → length s < size
    → Ensures (λ kept. c_string kept ≡ s) (store size s old)
store_keeps size s old h fits =
    rw (lt→ltb (length s) size fits) (ensures (c_string-append s (drop (length s + 1) old) h))

-- The line that a client sends with its sequence number.
abbrev pub cseq_line : List ℕ → List ℕ
cseq_line number = codes "CSeq: " ++ number

-- A line `CSeq: <number>` with a number of less than 20 bytes, none of them zero, a space, a carriage
-- return or a `C`, is taken without a write out of bounds; `m_CSeq` then reads as the number, and no
-- other field has changed.
pub process_request_common-cseq_line :
    (number : List ℕ) (r : RtspRequest)
    → IsPlain number
    → length number < 20
    → Ensures
        (λ p. (p.0 ≡ true) × ((c_string p.1.cseq ≡ number) × (p.1 ≡ record r { cseq = p.1.cseq })))
        (process_request_common (cseq_line number) r)
unfolding process_request_common common_key scan_cseq
process_request_common-cseq_line number r plain fits =
    rw (scan_cseq-plain number plain.no_letter plain.no_space plain.no_return) (
      Ensures-bind (store_keeps 20 number r.cseq plain.no_zero fits)
        (λ kept same. ensures (refl, (same, refl))))
