-- ===== src/Buffer/Contents.antt =====
-- code/buffer: the readable bytes, and what the vector operations of buffer.cpp do to them.
use mathlib.Core.List.{append_assoc}
use video_server.Base.{
  ℕ, ◌+◌, ◌-◌, ◌≤◌, ◌≡◌, refl, sym, ap, ◌∙◌, List, ◌++◌, arith, length, take, drop, length-append,
  length-take, length-drop, drop-append_le, take-append_le, drop-take, take-append_exact, drop-sum,
}
use video_server.Buffer.{Buffer, slice, overwrite}

-- The bytes between the two positions.
abbrev pub contents : Buffer → List ℕ
contents b = slice b.read_pos b.write_pos b.bytes

pub record IsValid (b : Buffer) : Type 0 where
  pub ordered : b.read_pos ≤ b.write_pos
  pub inside : b.write_pos ≤ length b.bytes

pub length-slice :
    (from to : ℕ) (xs : List ℕ) → to ≤ length xs → length (slice from to xs) ≡ to - from
length-slice from to xs h =
    omega (arith, length-take (to - from) (drop from xs), length-drop from xs)

pub length-overwrite :
    (at : ℕ) (src xs : List ℕ)
    → at + length src ≤ length xs
    → length (overwrite at src xs) ≡ length xs
length-overwrite at src xs h =
    let rest = drop (at + length src) xs in
    length-append (take at xs) (src ++ rest)
    ∙ omega (arith, length-append src rest, length-take at xs, length-drop (at + length src) xs)

-- Bytes copied to the write position extend the readable bytes.
pub slice-overwrite :
    (r w : ℕ) (src xs : List ℕ)
    → r ≤ w
    → w + length src ≤ length xs
    → slice r (w + length src) (overwrite w src xs) ≡ slice r w xs ++ src
slice-overwrite r w src xs h p =
    let n = w + length src - r in
    let rest = drop (w + length src) xs in
    let kept : drop r (take w xs) ≡ take (w - r) (drop r xs) =
      drop-take r w (w - r) xs (omega arith) in
    let moved : drop r (overwrite w src xs) ≡ (take (w - r) (drop r xs) ++ src) ++ rest =
      drop-append_le r (take w xs) (src ++ rest) (omega (arith, length-take w xs))
      ∙ ap (λ l. l ++ (src ++ rest)) kept
      ∙ sym (append_assoc (take (w - r) (drop r xs)) src rest) in
    ap (take n) moved
    ∙ take-append_exact n (take (w - r) (drop r xs) ++ src) rest (
        omega
          (arith, length-append (take (w - r) (drop r xs)) src, length-slice r w xs (omega arith)))

pub slice-append :
    (r w : ℕ) (xs ys : List ℕ) → r ≤ w → w ≤ length xs → slice r w (xs ++ ys) ≡ slice r w xs
slice-append r w xs ys h p =
    ap (take (w - r)) (drop-append_le r xs ys (omega arith))
    ∙ take-append_le (w - r) (drop r xs) ys (omega (arith, length-drop r xs))

-- The readable bytes moved to the front.
pub slice-front : (src xs : List ℕ) (n : ℕ) → n ≡ length src → slice 0 n (overwrite 0 src xs) ≡ src
slice-front src xs n e =
    ap (λ k. take k (src ++ drop (0 + length src) xs)) (let z : n - 0 ≡ n = omega arith in z)
    ∙ take-append_exact n src (drop (0 + length src) xs) e

pub drop-slice : (n r w : ℕ) (xs : List ℕ) → r + n ≤ w → drop n (slice r w xs) ≡ slice (r + n) w xs
drop-slice n r w xs h =
    drop-take n (w - r) (w - (r + n)) (drop r xs) (omega arith)
    ∙ ap (take (w - (r + n))) (sym (drop-sum r n (r + n) xs refl))
