-- ===== src/Rtp/H264/Frames.antt =====
-- `get_next_frame` cuts the file at every start code but the first of all, and loses no byte.
use video_server.Base.{
  ℕ, zero, suc, ◌+◌, ◌-◌, ◌≤◌, ◌<◌, ◌≡◌, refl, ap, ◌∙◌, sym, Bool, true, false, not, ◌&&◌, ◌||◌,
  inl, inr, List, [], ◌∷◌, ◌++◌, Option, none, some, arith, length, take, drop, Bool-cases,
  length-drop, length-take, take-append-drop, drop-sum, ◌==◌,
}
use video_server.Rtp.H264.{
  is_start_code_3, is_start_code_4, has_code, find_loop, find_next_start_code, Frame, frame,
  finished, malformed, get_next_frame,
}

-- What a search from `buffer` on gives: the first place with a start code, or none at all.
pub data Found (buffer : List ℕ) : Option (List ℕ) → Type 0 where
  found :
      (n : ℕ)
      → n ≤ length buffer
      → has_code (drop n buffer) ≡ true
      → ((j : ℕ) → j < n → has_code (drop j buffer) ≡ false)
      → Found buffer (some (drop n buffer))
  nowhere : ((j : ℕ) → has_code (drop j buffer) ≡ false) → Found buffer none

-- Fewer than three bytes hold no start code.
short_has_no_code : (buffer : List ℕ) → length buffer < 3 → has_code buffer ≡ false
short_has_no_code buffer h = ground arith

-- With three bytes or fewer, the last test of the search is that of the loop.
last_test : (buffer : List ℕ) → length buffer ≤ 3 → is_start_code_3 buffer 3 ≡ has_code buffer
last_test [] h = refl
last_test (a ∷ []) h = ground arith
last_test (a ∷ b ∷ []) h = ground arith
last_test (a ∷ b ∷ c ∷ []) h = ground arith
last_test (a ∷ b ∷ c ∷ d ∷ l) h = absurd (omega arith)

nowhere_below :
    (buffer : List ℕ)
    → length buffer ≤ 3
    → has_code buffer ≡ false
    → (j : ℕ) → has_code (drop j buffer) ≡ false
nowhere_below buffer h e zero = e
nowhere_below [] h e (suc j) = e
nowhere_below (x ∷ l) h e (suc j) = short_has_no_code (drop j l) (omega (arith, length-drop j l))

find_loop-Found :
    (rounds : ℕ) (buffer : List ℕ)
    → rounds ≡ length buffer - 3
    → Found buffer (find_loop rounds buffer)
unfolding find_loop
find_loop-Found zero buffer e = elim (Bool-cases (has_code buffer)) [
  | inl code ↦
      rw (last_test buffer (omega arith), code)
        (found 0 (omega arith) code λ j h. absurd (omega arith))
  | inr no_code ↦
      rw (last_test buffer (omega arith), no_code)
        (nowhere (nowhere_below buffer (omega arith) no_code))
]
find_loop-Found (suc rounds) [] e = absurd (omega arith)
find_loop-Found (suc rounds) (x ∷ l) e = elim (Bool-cases (has_code (x ∷ l))) [
  | inl code ↦ rw code (found 0 (omega arith) code λ j h. absurd (omega arith))
  | inr no_code ↦ rw no_code (later (find_loop-Found rounds l (omega arith)) no_code)
]
  where
    from :
        (P : ℕ → Type 0) → P 0 → (n : ℕ) → ((j : ℕ) → j < n → P (suc j)) → (j : ℕ) → j < suc n → P j
    from P first n rest zero h = first
    from P first n rest (suc j) h = rest j (omega arith)

    every : (P : ℕ → Type 0) → P 0 → ((j : ℕ) → P (suc j)) → (j : ℕ) → P j
    every P first rest zero = first
    every P first rest (suc j) = rest j

    later : {r : Option (List ℕ)} → Found l r → has_code (x ∷ l) ≡ false → Found (x ∷ l) r
    later (found n h code before) no_code =
        found (suc n) (omega arith) code
          (from (λ j. has_code (drop j (x ∷ l)) ≡ false) no_code n before)
    later (nowhere none_after) no_code =
        nowhere (every (λ j. has_code (drop j (x ∷ l)) ≡ false) no_code none_after)

find_next_start_code-Found : (buffer : List ℕ) → Found buffer (find_next_start_code buffer)
unfolding find_next_start_code
find_next_start_code-Found buffer = find_loop-Found (length buffer - 3) buffer refl

-- No start code from the fourth byte on.
abbrev pub IsLast : List ℕ → Type 0
IsLast cur = (j : ℕ) → has_code (drop j (drop 3 cur)) ≡ false

-- What `get_next_frame` does at `cur`.
pub data Cut (cur : List ℕ) : Frame × List ℕ → Type 0 where
  cut :
      (f rest : List ℕ)
      → cur ≡ f ++ rest
      → 3 ≤ length f
      → has_code cur ≡ true
      → has_code rest ≡ true
      → ((j : ℕ) → 3 + j < length f → has_code (drop j (drop 3 cur)) ≡ false)
      → Cut cur (frame f, rest)
  empty : cur ≡ [] → Cut cur (finished, cur)
  last : has_code cur ≡ true → IsLast cur → Cut cur (finished, cur)
  no_code : 0 < length cur → has_code cur ≡ false → Cut cur (malformed, cur)

code_length : (cur : List ℕ) → has_code cur ≡ true → 3 ≤ length cur
code_length cur h = ground arith

no_code_test :
    (cur : List ℕ)
    → (not (is_start_code_4 cur (length cur)) && not (is_start_code_3 cur (length cur)))
      ≡ not (has_code cur)
no_code_test cur = boolean (is_start_code_4 cur (length cur)) (is_start_code_3 cur (length cur))
  where
    boolean : (a b : Bool) → (not a && not b) ≡ not (b || a)
    boolean a b = ground arith

-- The frame that is cut off, by pointer difference.
by_search :
    (cur : List ℕ) (r : Option (List ℕ))
    → Found (drop 3 cur) r
    → has_code cur ≡ true
    → Cut cur (elim r [
      | none ↦ (finished, cur)
      | some next ↦ (frame (take (length cur - length next) cur), next)
    ])
by_search cur r (nowhere after) code = last code after
by_search cur r (found n h next before) code =
    let rest = drop n (drop 3 cur) in
    let size : length cur - length rest ≡ 3 + n =
      omega (arith, code_length cur code, length-drop n (drop 3 cur), length-drop 3 cur) in
    let f = take (length cur - length rest) cur in
    let length_f : length f ≡ 3 + n =
      length-take (length cur - length rest) cur
      ∙ omega (arith, code_length cur code, length-drop 3 cur) in
    cut f rest
      (sym (take-append-drop (length cur - length rest) cur)
        ∙ ap (λ t. f ++ t) (ap (λ k. drop k cur) size ∙ drop-sum 3 n (3 + n) cur refl))
      (omega arith) code next (λ j p. before j (omega arith))

-- A frame runs from one start code to just before the next; `{nullptr, 0}` comes at the end of the
-- file and also where no further start code follows; `{nullptr, -1}` where none is at the pointer.
pub get_next_frame-Cut : (cur : List ℕ) → Cut cur (get_next_frame cur)
unfolding get_next_frame
get_next_frame-Cut [] = empty refl
get_next_frame-Cut (x ∷ l) =
    let more : (length (x ∷ l) == 0) ≡ false = ground arith in
    elim (Bool-cases (has_code (x ∷ l))) [
      | inr bad ↦ rw (more, no_code_test (x ∷ l), bad) (no_code (omega arith) bad)
      | inl code ↦
          rw (more, no_code_test (x ∷ l), code)
            (by_search (x ∷ l) (find_next_start_code (drop 3 (x ∷ l)))
              (find_next_start_code-Found (drop 3 (x ∷ l))) code)
    ]
