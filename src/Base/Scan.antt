-- ===== src/Base/Scan.antt =====
-- The searches in a text: for a line's end, and for one of several words.
use video_server.Base.{
  ℕ, zero, suc, ◌+◌, ◌≤◌, ◌≡◌, refl, Bool, true, false, ◌&&◌, List, [], ◌∷◌, ◌++◌, Option, none,
  some, arith, length, take, drop, get_or, ◌==◌, if◌then◌else◌,
}
use video_server.Base.Text.{has_byte}

-- `search` for CRLF: how far it is, or else all that there is.
abbrev pub line_end : List ℕ → ℕ
line_end [] = 0
line_end (c ∷ s) = if (c == 13) && (get_or s 0 0 == 10) then 0 else suc (line_end s)

-- The index of the line's end is within the text, and two bytes follow it unless it is the text's end.
pub line_end_inside : (s : List ℕ) → line_end s ≤ length s
line_end_inside [] = omega arith
line_end_inside (c ∷ s) = ground (arith, line_end_inside s)

pub line_end_break : (s : List ℕ) → (line_end s == length s) ≡ false → line_end s + 2 ≤ length s
line_end_break [] h = absurd (ground arith)
line_end_break (c ∷ []) h = absurd (ground arith)
line_end_break (c ∷ d ∷ s) h = ground (arith, line_end_break (d ∷ s), line_end_inside (d ∷ s))

abbrev pub starts_with : List ℕ → List ℕ → Bool
starts_with [] s = true
starts_with (a ∷ w) [] = false
starts_with (a ∷ w) (c ∷ s) = (a == c) && starts_with w s

-- The first of the words that the text starts with.
abbrev pub starting_word : List (List ℕ) → List ℕ → Option (List ℕ)
starting_word [] s = none
starting_word (w ∷ words) s = if starts_with w s then some w else starting_word words s

-- `regex_search` for `w1|w2|...`: the leftmost place where a word stands, the first word there.
abbrev pub find_word : List (List ℕ) → List ℕ → Option (List ℕ)
find_word words [] = starting_word words []
find_word words (c ∷ s) = elim (starting_word words (c ∷ s)) [
  | some w ↦ some w
  | none ↦ find_word words s
]

pub starts_with-append : (w s : List ℕ) → starts_with w (w ++ s) ≡ true
starts_with-append [] s = refl
starts_with-append (a ∷ w) s = ground (arith, starts_with-append w s)

pub has_byte-take : (c n : ℕ) (s : List ℕ) → has_byte c s ≡ false → has_byte c (take n s) ≡ false
has_byte-take c zero s h = refl
has_byte-take c (suc n) [] h = refl
has_byte-take c (suc n) (d ∷ s) h = ground (arith, has_byte-take c n s)

pub has_byte-drop : (c n : ℕ) (s : List ℕ) → has_byte c s ≡ false → has_byte c (drop n s) ≡ false
has_byte-drop c zero s h = h
has_byte-drop c (suc n) [] h = refl
has_byte-drop c (suc n) (d ∷ s) h = has_byte-drop c n s (ground arith)

pub has_byte-append :
    (b : ℕ) (s t : List ℕ)
    → has_byte b s ≡ false
    → has_byte b t ≡ false
    → has_byte b (s ++ t) ≡ false
has_byte-append b [] t h i = i
has_byte-append b (c ∷ s) t h i = ground (arith, has_byte-append b s t)
