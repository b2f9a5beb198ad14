-- ===== src/Log/Lines.antt =====
-- code/log/log.h and log.cpp: the line that a call of `Log::write` makes, and the file it is for.
-- The texts that `snprintf` makes of the time, the message of `vsnprintf`, and whether `fopen` works
-- are parameters. Line counts are taken to be below 2^31.
pub mod Written
mod Tests
use video_server.Base.{
  ℕ, false, true, ◌+◌, ◌-◌, ◌/◌, ◌%◌, Bool, not, ◌&&◌, ◌||◌, List, [], ◌∷◌, ◌++◌, length, take, ltb,
  leb, ◌==◌, if◌then◌else◌,
}
use video_server.Base.Int.{ℤ, pos, negsuc, is_positive}
use video_server.Base.Run.{Run, ok, abort, ◌>>=◌, ◌>>◌, check}
use video_server.Base.Text.{codes}
use video_server.Buffer.{Buffer, overwrite, writable_bytes, has_written, append, retrieve_all}
use video_server.Buffer.Contents.{contents}
use video_server.Http.Response.{to_text}

-- What is read of the clock: the day of the month, the date `%04d_%02d_%02d`, and the text that a
-- line starts with.
pub record Moment : Type 0 where
  pub day : ℕ
  pub tail : List ℕ
  pub stamp : List ℕ

-- The file is its name; `printed` are the texts that `write` itself has put into files.
pub record Log : Type 0 where
  pub line_count : ℕ
  pub to_day : ℕ
  pub path : List ℕ
  pub suffix : List ℕ
  pub buff : Buffer
  pub is_async : Bool
  pub queue : List (List ℕ)
  pub capacity : ℕ
  pub file : List ℕ
  pub printed : List (List ℕ)

-- `MAX_LINES`
abbrev pub max_lines : ℕ
max_lines = 50000

abbrev pub leb_int : ℤ → ℤ → Bool
leb_int (pos m) (pos n) = leb m n
leb_int (pos m) (negsuc n) = false
leb_int (negsuc m) (pos n) = true
leb_int (negsuc m) (negsuc n) = leb n m

-- The lines of `LOG_DEBUG` to `LOG_ERROR` are for a log that is open, with a level no higher than theirs.
abbrev pub is_due : Bool → ℤ → ℤ → Bool
is_due is_open level asked = is_open && leb_int level asked

-- The name of a day's file with this number, cut to `LOG_NAME_LEN - 72`.
abbrev pub file_name : Log → List ℕ → ℕ → List ℕ
file_name l tail number =
    let end = if number == 0 then l.suffix else codes "-" ++ to_text number ++ l.suffix in
    take 183 (l.path ++ codes "/" ++ tail ++ end)

-- Another file is due: with a new day, and after every `MAX_LINES` lines.
abbrev pub is_turning : Moment → Log → Bool
is_turning now l =
    not (l.to_day == now.day) || (not (l.line_count == 0) && (l.line_count % max_lines == 0))

-- The first part of `write`; `opened` tells whether `fopen` of another file works.
pub rotate : Bool → Moment → Log → Run Log
rotate opened now l =
    let new_day = record l { file = file_name l now.tail 0; to_day = now.day; line_count = 0 } in
    let next_file = record l { file = file_name l now.tail (l.line_count / max_lines) } in
    let turned = if not (l.to_day == now.day) then new_day else next_file in
    if is_turning now l then check opened >> ok turned else ok l

abbrev pub inited : List ℕ → List ℕ → ℤ → Moment → Log → Log
inited path suffix max_queue_size now l = record l {
  is_async = is_positive max_queue_size;
  line_count = 0;
  path = path;
  suffix = suffix;
  file = take 254 (path ++ codes "/" ++ now.tail ++ suffix);
  to_day = now.day;
  buff = retrieve_all l.buff;
}

-- `init`: another file and an empty buffer. Lines that wait in the queue stay there, and the queue has
-- the capacity that it was made with, whatever is asked for. `opened` and `opened_again` tell whether
-- `fopen` works before and after `mkdir`.
pub init_log : List ℕ → List ℕ → ℤ → Bool → Bool → Moment → Log → Run Log
init_log path suffix max_queue_size opened opened_again now l =
    check (opened || opened_again) >> ok (inited path suffix max_queue_size now l)

-- `snprintf` or `vsnprintf` at the write position with this limit, and `HasWritten` of the result, the
-- length of the whole text: a write or a position past the end of the buffer is undefined.
pub print_at : ℕ → List ℕ → Buffer → Run Buffer
print_at limit text b =
    let room = writable_bytes b in
    let kept = take (limit - 1) text in
    let ended = overwrite (b.write_pos + length kept) (0 ∷ []) b.bytes in
    let printed = record b { bytes = overwrite b.write_pos kept ended } in
    if ltb (length kept) room && leb (length text) room
    then ok (has_written (length text) printed)
    else abort

-- `AppendLogLevelTitle_`
abbrev pub level_title : ℤ → List ℕ
level_title (pos n) =
    if n == 0
    then codes "[debug]: "
    else if n == 2
    then codes "[warn] : "
    else if n == 3
    then codes "[error]: "
    else codes "[info] : "
level_title (negsuc n) = codes "[info] : "

-- The text of the line, up to its first zero byte.
abbrev pub up_to_zero : List ℕ → List ℕ
up_to_zero [] = []
up_to_zero (c ∷ s) = if c == 0 then [] else c ∷ up_to_zero s

-- The line goes to the queue, or to the file if that is full or not used.
abbrev pub hand_over : Log → Buffer → Log
hand_over l b =
    let counted = record l { line_count = l.line_count + 1; buff = retrieve_all b } in
    if l.is_async && ltb (length l.queue) l.capacity
    then record counted { queue = l.queue ++ contents b ∷ [] }
    else record counted { printed = l.printed ++ up_to_zero (contents b) ∷ [] }

-- The text of a line: the time, the title, the message and the end.
abbrev pub print_text : ℤ → Moment → List ℕ → Buffer → Run Buffer
print_text level now message b = print_at 128 now.stamp b >>= λ b1.
    append (level_title level) b1 >>= λ b2.
    print_at (writable_bytes b2) message b2 >>= λ b3. append (10 ∷ 0 ∷ []) b3

-- `write`
pub write_line : Bool → ℤ → Moment → List ℕ → Log → Run Log
write_line opened level now message l = rotate opened now l >>= λ turned.
    print_text level now message turned.buff >>= λ b. ok (hand_over turned b)

-- A round of `AsyncWrite_`: the line at the front of the queue goes to the file, up to its zero byte.
pub async_write : Log → Log
async_write l = elim l.queue [
  | [] ↦ l
  | line ∷ rest ↦ record l { queue = rest; printed = l.printed ++ up_to_zero line ∷ [] }
]

-- A call of the macro `LOG_BASE`.
pub log_base : Bool → Bool → ℤ → ℤ → Moment → List ℕ → Log → Run Log
log_base is_open opened level asked now message l =
    if is_due is_open level asked then write_line opened asked now message l else ok l
