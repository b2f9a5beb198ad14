-- ===== src/Log/Lines/Written.antt =====
-- What a call of `write` adds to the log, and to which file.
use video_server.Base.{
  Bool, ℕ, ◌+◌, ◌-◌, ◌/◌, ◌%◌, ◌≤◌, ◌<◌, ◌≡◌, refl, sym, ap, ◌∙◌, inl, inr, true, not, ◌&&◌, List,
  [], ◌∷◌, ◌++◌, arith, length, take, ltb, leb, ◌==◌, if◌then◌else◌, Bool-cases, take-length,
  length-take, take-append-drop, drop,
}
use video_server.Base.Int.{ℤ, pos, negsuc}
use video_server.Base.Run.{Ensures, ensures, Ensures-bind, Ensures-weaken, Ensures-at}
use video_server.Buffer.{Buffer, overwrite, slice, writable_bytes}
use video_server.Buffer.Contents.{
  contents, IsValid, slice-append, slice-overwrite, length-overwrite,
}
use video_server.Buffer.Refine.{
  Holds, append_extends, append_in_place, has_written_lem, retrieve_all_lem,
}
use video_server.Log.Lines.{
  Moment, Log, max_lines, file_name, rotate, print_at, level_title, up_to_zero, hand_over,
  print_text, write_line, is_turning,
}

-- The file is the one for the number of the last line of the day.
abbrev pub IsNamed : List ℕ → Log → Type 0
IsNamed tail l = l.file ≡ file_name l tail ((l.line_count - 1) / max_lines)

-- How many lines the day has had: the count starts again with a new day.
abbrev pub lines_before : Moment → Log → ℕ
lines_before now l = if l.to_day == now.day then l.line_count else 0

-- After the first part: the file is that for the line to come, and nothing else of the log changes but
-- the day and the count.
record Turned (now : Moment) (l m : Log) : Type 0 where
  file : m.file ≡ file_name m now.tail (m.line_count / max_lines)
  day : m.to_day ≡ now.day
  counted : m.line_count ≡ lines_before now l
  placed : (m.path ≡ l.path) × (m.suffix ≡ l.suffix)
  buff : m.buff ≡ l.buff
  async : m.is_async ≡ l.is_async
  queue : m.queue ≡ l.queue
  capacity : m.capacity ≡ l.capacity
  printed : m.printed ≡ l.printed

rotate_turns :
    (opened : Bool) (now : Moment) (l : Log)
    → ((l.to_day == now.day) ≡ true → IsNamed now.tail l)
    → (is_turning now l ≡ true → opened ≡ true)
    → Ensures (Turned now l) (rotate opened now l)
unfolding rotate
rotate_turns opened now l named opens = elim (Bool-cases (l.to_day == now.day)) [
  | inr other ↦
      rw (other, opens (rw other refl))
        (ensures (record {
          file = refl;
          day = refl;
          counted = rw other refl;
          placed = (refl, refl);
          buff = refl;
          async = refl;
          queue = refl;
          capacity = refl;
          printed = refl;
        }))
  | inl same ↦
      let day : l.to_day ≡ now.day = ground arith in
      elim (Bool-cases (not (l.line_count == 0) && (l.line_count % max_lines == 0))) [
        | inl full ↦
            rw (same, full, opens (rw (same, full) refl))
              (ensures (record {
                file = refl;
                day = day;
                counted = rw same refl;
                placed = (refl, refl);
                buff = refl;
                async = refl;
                queue = refl;
                capacity = refl;
                printed = refl;
              }))
        | inr further ↦
            let number : (l.line_count - 1) / max_lines ≡ l.line_count / max_lines = ground arith in
            rw (same, further)
              (ensures (record {
                file = named same ∙ ap (file_name l now.tail) number;
                day = day;
                counted = rw same refl;
                placed = (refl, refl);
                buff = refl;
                async = refl;
                queue = refl;
                capacity = refl;
                printed = refl;
              }))
      ]
]

slice-overwrite_past :
    (r w at : ℕ) (src xs : List ℕ)
    → r ≤ w
    → w ≤ at
    → at + length src ≤ length xs
    → slice r w (overwrite at src xs) ≡ slice r w xs
slice-overwrite_past r w at src xs h i fits =
    let first = length-take at xs in
    slice-append r w (take at xs) (src ++ drop (at + length src) xs) h (omega (arith, first))
    ∙ sym (slice-append r w (take at xs) (drop at xs) h (omega (arith, first)))
    ∙ ap (slice r w) (take-append-drop at xs)

-- A text that leaves room for its zero byte, also below the limit, is added whole.
print_at_adds :
    (limit : ℕ) (text : List ℕ) (b : Buffer)
    → IsValid b
    → length text < limit
    → length text < writable_bytes b
    → Ensures
        (λ c. Holds (contents b ++ text) c × (writable_bytes c ≡ writable_bytes b - length text))
        (print_at limit text b)
unfolding print_at
print_at_adds limit text b v below fits =
    let whole : take (limit - 1) text ≡ text = take-length (limit - 1) text (omega arith) in
    let room : (ltb (length text) (writable_bytes b) && leb (length text) (writable_bytes b))
        ≡ true =
      ground arith in
    let ended = overwrite (b.write_pos + length text) (0 ∷ []) b.bytes in
    let end_size =
      length-overwrite (b.write_pos + length text) (0 ∷ []) b.bytes (omega (arith, fits)) in
    let size = length-overwrite b.write_pos text ended (omega (arith, end_size, fits)) in
    let before =
      slice-overwrite_past b.read_pos b.write_pos (b.write_pos + length text) (0 ∷ []) b.bytes
        v.ordered (omega arith) (omega (arith, fits)) in
    rw (whole, room, has_written_lem)
      (ensures (
        (
          record { ordered = omega (arith, v); inside = omega (arith, size, end_size, fits) },
          slice-overwrite b.read_pos b.write_pos text ended v.ordered
                (omega (arith, end_size, fits))
              ∙ ap (λ t. t ++ text) before,
        ),
        omega (arith, size, end_size),
      ))

title_size : (level : ℤ) → length (level_title level) ≡ 9
title_size (pos n) = ground arith
title_size (negsuc n) = refl

abbrev pub line_of : ℤ → Moment → List ℕ → List ℕ
line_of level now message = ((now.stamp ++ level_title level) ++ message) ++ 10 ∷ 0 ∷ []

-- The line is at the end of the queue, or in the file up to its zero byte.
abbrev pub handed : Log → List ℕ → List (List ℕ) × List (List ℕ)
handed l line =
    if l.is_async && ltb (length l.queue) l.capacity
    then (l.queue ++ line ∷ [], l.printed)
    else (l.queue, l.printed ++ up_to_zero line ∷ [])

pub record IsLogged (now : Moment) (line : List ℕ) (l m : Log) : Type 0 where
  pub added : (m.queue, m.printed) ≡ handed l line
  pub drained : Holds [] m.buff
  pub day : m.to_day ≡ now.day
  pub named : IsNamed now.tail m
  pub counted : m.line_count ≡ lines_before now l + 1
  pub placed : (m.path ≡ l.path) × (m.suffix ≡ l.suffix)

print_line :
    (level : ℤ) (now : Moment) (message : List ℕ) (b : Buffer)
    → Holds [] b
    → length now.stamp < 128
    → length now.stamp + length message + 11 < writable_bytes b
    → Ensures (Holds (line_of level now message)) (print_text level now message b)
print_line level now message b h short fits =
    let title = title_size level in
    Ensures-bind (print_at_adds 128 now.stamp b h.0 short (omega arith)) (λ b1 (k1, room1).
      let in_place = append_in_place (level_title level) b1 (omega (arith, room1, title, fits)) in
      let added = Ensures-at _ in_place (append_extends (level_title level) b1 k1.0) in
      let size =
        length-overwrite b1.write_pos (level_title level) b1.bytes
          (omega (arith, room1, title, fits)) in
      rw in_place (
        Ensures-bind
          (print_at_adds _ message _ added.0 (omega (arith, room1, title, fits, size))
            (omega (arith, room1, title, fits, size)))
          (λ b3 (k3, room3).
            let text : contents b3 ≡ (now.stamp ++ level_title level) ++ message =
              k3.1
              ∙ ap (λ t. t ++ message)
                  (added.1
                    ∙ ap (λ t. t ++ level_title level) (k1.1 ∙ ap (λ t. t ++ now.stamp) h.1)) in
            Ensures-weaken (append_extends (10 ∷ 0 ∷ []) b3 k3.0)
              (λ b4 k4. (k4.0, k4.1 ∙ ap (λ t. t ++ 10 ∷ 0 ∷ []) text)))))

handing_over :
    (now : Moment) (line : List ℕ) (l m : Log) (b : Buffer)
    → Holds line b
    → Turned now l m
    → IsLogged now line l (hand_over m b)
handing_over now line l m b h turned =
    let count : (m.line_count + 1 - 1) / max_lines ≡ m.line_count / max_lines = ground arith in
    elim (Bool-cases (l.is_async && ltb (length l.queue) l.capacity)) [
      | inl room ↦
          rw (turned.async, turned.queue, turned.capacity, room, retrieve_all_lem b)
            (record {
              added = rw (handed, room, turned.printed, h.1) refl;
              drained = (record { ordered = omega arith; inside = omega arith }, refl);
              day = turned.day;
              named = turned.file ∙ ap (file_name m now.tail) (sym count);
              counted = omega (arith, turned.counted);
              placed = turned.placed;
            })
      | inr full ↦
          rw (turned.async, turned.queue, turned.capacity, full, retrieve_all_lem b)
            (record {
              added = rw (handed, full, turned.printed, h.1) refl;
              drained = (record { ordered = omega arith; inside = omega arith }, refl);
              day = turned.day;
              named = turned.file ∙ ap (file_name m now.tail) (sym count);
              counted = omega (arith, turned.counted);
              placed = turned.placed;
            })
    ]

-- A call of `write` on an empty buffer with room for the line makes one line of the time, the level's
-- title, the message, a newline and a zero byte, puts it at the end of the queue, or into the file if
-- the queue is full or not used, and leaves the buffer empty. The file is then the one of that day
-- with the number of lines written before on that day divided by 50000; these are counted from zero on
-- a new day, and this line as one more.
-- The conditions: another file can be opened where one is due, the file was the one of this day if the day of the month is the same, the text of
-- the time is shorter than 128 bytes, and with the message it leaves more than eleven bytes of the
-- buffer.
pub write_line_logs :
    (opened : Bool) (level : ℤ) (now : Moment) (message : List ℕ) (l : Log)
    → ((l.to_day == now.day) ≡ true → IsNamed now.tail l)
    → (is_turning now l ≡ true → opened ≡ true)
    → Holds [] l.buff
    → length now.stamp < 128
    → length now.stamp + length message + 11 < writable_bytes l.buff
    → Ensures (IsLogged now (line_of level now message) l) (write_line opened level now message l)
unfolding write_line
write_line_logs opened level now message l named opens h short fits =
    Ensures-bind (rotate_turns opened now l named opens) λ m turned. rw turned.buff (
      Ensures-bind (print_line level now message l.buff h short fits)
        (λ b k. ensures (handing_over now (line_of level now message) l m b k turned)))
