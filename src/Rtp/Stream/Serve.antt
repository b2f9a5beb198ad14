-- ===== src/Rtp/Stream/Serve.antt =====
-- `pushStream` over a whole file: the frames it cuts, and the packets it sends of them.
use mathlib.Core.List.{append_assoc}
use video_server.Base.{
  ℕ, zero, suc, ◌+◌, ◌≤◌, ◌<◌, ◌≡◌, refl, sym, ap, ◌∙◌, true, false, List, [], ◌∷◌, ◌++◌, arith,
  length, length-append,
}
use video_server.Base.Int.{ℤ, pos, negsuc}
use video_server.Base.Run.{Run, ok, ◌>>=◌}
use video_server.Rtp.H264.{Frame, frame, finished, malformed, has_code, get_next_frame}
use video_server.Rtp.H264.Frames.{Cut, cut, empty, last, no_code, IsLast, get_next_frame-Cut}
use video_server.Rtp.Stream.{Rtp, send_frame, push_loop, push_stream}

-- A file cut into frames, each from one start code to just before the next, and what is left.
pub data Split : List ℕ → List (List ℕ) → List ℕ → Type 0 where
  whole : (cur : List ℕ) → has_code cur ≡ true → IsLast cur → Split cur [] cur
  more :
      (cur f rest : List ℕ)
      → Cut cur (frame f, rest)
      → (fs : List (List ℕ)) (left : List ℕ) → Split rest fs left
      → Split cur (f ∷ fs) left

abbrev pub flatten : List (List ℕ) → List ℕ
flatten [] = []
flatten (f ∷ fs) = f ++ flatten fs

-- The packets of the frames, one after the other.
abbrev pub send_all : List (List ℕ) → Rtp → List (List ℕ)
send_all [] r = []
send_all (f ∷ fs) r = (send_frame f r).0 ++ send_all fs (send_frame f r).1

cut_append : (cur f rest : List ℕ) → Cut cur (frame f, rest) → cur ≡ f ++ rest
cut_append cur f rest (cut f' rest' e long code next inside) = e

-- No byte is lost by the cuts.
pub Split-flatten :
    (cur : List ℕ) (fs : List (List ℕ)) (left : List ℕ)
    → Split cur fs left
    → cur ≡ flatten fs ++ left
Split-flatten cur fs left (whole c code final) = refl
Split-flatten cur fs left (more c f rest parts fs' l s) =
    cut_append cur f rest parts
    ∙ ap (λ t. f ++ t) (Split-flatten rest fs' left s)
    ∙ sym (append_assoc f (flatten fs') left)

-- What `pushStream` does with a file that starts with a start code.
abbrev pub Pushed : List ℕ → Rtp → Run (ℤ × List (List ℕ)) → Type 0
Pushed file r result =
    (fs : List (List ℕ)) × ((left : List ℕ) × (Split file fs left
        × (result ≡ ok (pos 0, send_all fs r))))

-- A round of the loop, as a function of what is cut off.
abbrev by_frame : ℕ → Rtp → Frame × List ℕ → Run (ℤ × List (List ℕ))
by_frame fuel r g = elim g.0 [
  | frame f ↦
      push_loop fuel g.1 (send_frame f r).1 >>= λ (code, ps). ok (code, (send_frame f r).0 ++ ps)
  | finished ↦ ok (pos 0, [])
  | malformed ↦ ok (negsuc 0, [])
]

push_loop-eq-by_frame :
    (fuel : ℕ) (cur : List ℕ) (r : Rtp) (g : Frame × List ℕ)
    → get_next_frame cur ≡ g
    → push_loop (suc fuel) cur r ≡ by_frame fuel r g
unfolding push_loop
push_loop-eq-by_frame fuel cur r g e = ap (by_frame fuel r) e

-- One round of the loop, by what is cut off, when the later rounds do what they should.
push_round :
    (fuel : ℕ) (cur : List ℕ) (r : Rtp) (g : Frame × List ℕ)
    → Cut cur g
    → has_code cur ≡ true
    → get_next_frame cur ≡ g
    → ((rest : List ℕ) (r' : Rtp)
        → length rest + 3 ≤ length cur
        → has_code rest ≡ true
        → Pushed rest r' (push_loop fuel rest r'))
    → Pushed cur r (push_loop (suc fuel) cur r)
push_round fuel cur r g (cut f rest e long code next inside) starts got later =
    let (fs, (left, (split, sent))) =
      later rest (send_frame f r).1 (omega (arith, ap length e, length-append f rest)) next in
    (
      f ∷ fs,
      (
        left,
        (
          more cur f rest (cut f rest e long code next inside) fs left split,
          push_loop-eq-by_frame fuel cur r (frame f, rest) got ∙ rw sent refl,
        ),
      ),
    )
push_round fuel cur r g (empty e) starts got later = absurd (ground (arith, ap has_code e))
push_round fuel cur r g (last code final) starts got later =
    ([], (cur, (whole cur code final, push_loop-eq-by_frame fuel cur r (finished, cur) got)))
push_round fuel cur r g (no_code some none_here) starts got later = absurd (ground arith)

push_loop-Pushed :
    (fuel : ℕ) (cur : List ℕ) (r : Rtp)
    → length cur < fuel
    → has_code cur ≡ true
    → Pushed cur r (push_loop fuel cur r)
push_loop-Pushed zero cur r h code = absurd (omega arith)
push_loop-Pushed (suc fuel) cur r h code =
    push_round fuel cur r (get_next_frame cur) (get_next_frame-Cut cur) code refl
      λ rest r' shorter next. push_loop-Pushed fuel rest r' (omega arith) next

-- On a file that starts with a start code the loop ends, `pushStream` returns 0, and what it has
-- sent are the packets of the file's frames in order, but for the bytes from the last start code on.
pub push_stream_sends :
    (file : List ℕ) (r : Rtp) → has_code file ≡ true → Pushed file r (push_stream file r)
unfolding push_stream
push_stream_sends file r code = push_loop-Pushed (length file + 1) file r (omega arith) code

push_bad_round :
    (fuel : ℕ) (cur : List ℕ) (r : Rtp) (g : Frame × List ℕ)
    → Cut cur g
    → has_code cur ≡ false
    → 0 < length cur
    → get_next_frame cur ≡ g
    → push_loop (suc fuel) cur r ≡ ok (negsuc 0, [])
push_bad_round fuel cur r g (cut f rest e long code next inside) bad some got = ground arith
push_bad_round fuel cur r g (empty e) bad some got = absurd (omega (arith, ap length e))
push_bad_round fuel cur r g (last code final) bad some got = ground arith
push_bad_round fuel cur r g (no_code more_than none_here) bad some got =
    push_loop-eq-by_frame fuel cur r (malformed, cur) got

-- A file with bytes but no start code at its head makes `pushStream` return -1 with nothing sent.
pub push_stream_rejects :
    (file : List ℕ) (r : Rtp)
    → has_code file ≡ false
    → 0 < length file
    → push_stream file r ≡ ok (negsuc 0, [])
unfolding push_stream
push_stream_rejects file r bad some =
    let one_more : length file + 1 ≡ suc (length file) = omega arith in
    rw one_more (
      push_bad_round (length file) file r (get_next_frame file) (get_next_frame-Cut file) bad some
        refl)
