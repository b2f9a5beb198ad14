-- ===== src/Rtsp/Request/Reads.antt =====
-- The loop over the buffer is the lines of the request, one after the other.
use video_server.Base.{
  ℕ, zero, suc, ◌+◌, ◌<◌, ◌≡◌, refl, ap, ◌∙◌, true, false, List, [], ◌∷◌, ◌++◌, some, arith, length,
  take, drop, ◌==◌, length-append, take-append_exact, drop-append_exact, drop-sum,
}
use video_server.Base.Int.{ℤ}
use video_server.Base.Run.{Run, ok, ◌>>=◌, Ensures, ensures, Ensures-bind, Ensures-unbind}
use video_server.Base.Scan.{line_end, find_word}
use video_server.Base.Text.{has_byte}
use video_server.Buffer.{Buffer, readable_bytes}
use video_server.Buffer.Contents.{contents, IsValid, length-slice}
use video_server.Buffer.Refine.{Holds, retrieve_until_drops}
use video_server.Rtsp.{RtspRequest}
use video_server.Rtsp.Request.{method_words, process_line, parse_loop, parse}

-- The lines as a client sends them.
abbrev pub wire : List (List ℕ) → List ℕ
wire [] = []
wire (line ∷ lines) = line ++ 13 ∷ 10 ∷ wire lines

-- No line has a carriage return in it.
abbrev pub AreLines : List (List ℕ) → Type 0
AreLines [] = Unit
AreLines (line ∷ lines) = (has_byte 13 line ≡ false) × AreLines lines

pub line_end-wire :
    (line rest : List ℕ)
    → has_byte 13 line ≡ false
    → line_end (line ++ 13 ∷ 10 ∷ rest) ≡ length line
line_end-wire [] rest h = ground arith
line_end-wire (c ∷ line) rest h = ground (arith, line_end-wire line rest)

drop-line : (line rest : List ℕ) → drop (length line + 2) (line ++ 13 ∷ 10 ∷ rest) ≡ rest
drop-line line rest =
    drop-sum (length line) 2 (length line + 2) (line ++ 13 ∷ 10 ∷ rest) refl
    ∙ ap (drop 2) (drop-append_exact (length line) line (13 ∷ 10 ∷ rest) refl)

module _ (sscanf : List ℕ → List ℕ → ℤ × ℤ → ℤ × ℤ) where
  -- `processRequest_Common`, and the method's own part where that takes nothing, line by line.
  abbrev pub process_lines : List (List ℕ) → RtspRequest → Run RtspRequest
  process_lines [] r = ok r
  process_lines (line ∷ lines) r = process_line sscanf line r >>= process_lines lines

  parse_loop-wire {κ} :
      {P : RtspRequest → Type κ} (lines : List (List ℕ)) (fuel : ℕ) (r : RtspRequest) (b : Buffer)
      → AreLines lines
      → IsValid b
      → contents b ≡ wire lines
      → length (wire lines) < fuel
      → Ensures P (process_lines lines r)
      → Ensures (λ p. P p.0 × Holds [] p.1) (parse_loop sscanf fuel r b)
  unfolding parse_loop
  parse_loop-wire lines zero r b are v holds enough good = absurd (omega arith)
  parse_loop-wire [] (suc fuel) r b are v holds enough (ensures p) =
      let size = length-slice b.read_pos b.write_pos b.bytes v.inside in
      let count : (readable_bytes b == 0) ≡ true = ground (arith, ap length holds, size) in
      rw count (ensures (p, (v, holds)))
  parse_loop-wire (line ∷ lines) (suc fuel) r b (first, are) v holds enough good =
      let size = length-slice b.read_pos b.write_pos b.bytes v.inside in
      let sizes = length-append line (13 ∷ 10 ∷ wire lines) in
      let count : (readable_bytes b == 0) ≡ false = ground (arith, ap length holds, size, sizes) in
      let end : line_end (contents b) ≡ length line =
        ap line_end holds ∙ line_end-wire line (wire lines) first in
      let text : take (length line) (contents b) ≡ line =
        ap (take (length line)) holds
        ∙ take-append_exact (length line) line (13 ∷ 10 ∷ wire lines) refl in
      let part : (length line == length (contents b)) ≡ false =
        ground (arith, ap length holds, sizes) in
      let n = length line + 2 in
      let place : b.read_pos + length line + 2 ≡ b.read_pos + n = omega arith in
      let moved = retrieve_until_drops n b v (omega (arith, ap length holds, sizes)) in
      let left = ap (drop n) holds ∙ drop-line line (wire lines) in
      rw (count, end, text, part, place)
        (Ensures-bind (Ensures-unbind (process_line sscanf line r) good) (λ r' rest.
          Ensures-bind moved (λ b' h.
            parse_loop-wire lines fuel r' b' are h.0 (h.1 ∙ left) (omega (arith, sizes, enough))
              rest)))

  -- `parse` of a valid buffer that holds lines, each with its CRLF, looks for the method in the line it
  -- is given, handles each line once and in order, and leaves the buffer empty: whatever handling the
  -- lines one by one ensures of the request, `parse` ensures, and returns true.
  -- The conditions are at least one line, and no carriage return within a line.
  pub parse-wire {κ} :
      {P : RtspRequest → Type κ} (line : List ℕ) (lines : List (List ℕ)) (word : List ℕ)
      (r : RtspRequest) (b : Buffer)
      → AreLines (line ∷ lines)
      → IsValid b
      → contents b ≡ wire (line ∷ lines)
      → find_word method_words line ≡ some word
      → Ensures P (process_lines (line ∷ lines) (record r { method = word }))
      → Ensures (λ p. (p.0 ≡ true) × (P p.1.0 × Holds [] p.1.1)) (parse sscanf r b line)
  unfolding parse
  parse-wire line lines word r b are v holds found good =
      let size = length-slice b.read_pos b.write_pos b.bytes v.inside in
      let sizes = length-append line (13 ∷ 10 ∷ wire lines) in
      let count : (readable_bytes b == 0) ≡ false = ground (arith, ap length holds, size, sizes) in
      rw (found, count)
        (Ensures-bind
          (parse_loop-wire (line ∷ lines) (readable_bytes b + 1) (record r { method = word }) b are
            v holds (omega (arith, ap length holds, size)) good)
          (λ p k. ensures (refl, k)))
