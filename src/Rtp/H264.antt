-- ===== src/Rtp/H264.antt =====
-- code/rtp/h264parser.h and h264parser.cpp: the mapped file, cut at its start codes.
-- A pointer into the mapped file is the list of the bytes from there to the file's end, so that
-- `end - pointer` is its length. A read past the end gives the 0 that fills the last page mapped.
pub mod Frames
use video_server.Base.{
  ℕ, zero, suc, ◌-◌, Bool, true, false, not, ◌&&◌, ◌||◌, List, Option, none, some, length, get_or,
  take, drop, leb, ◌==◌, if◌then◌else◌,
}

-- `_buffer[i] == b`
abbrev pub is_byte : List ℕ → ℕ → ℕ → Bool
is_byte buffer i b = get_or buffer i 0 == b

-- `is_start_code(_buffer, buffer_len, 3)` and `(…, 4)`; any other type of code is reported false.
abbrev pub is_start_code_3 : List ℕ → ℕ → Bool
is_start_code_3 buffer buffer_len =
    leb 3 buffer_len && (is_byte buffer 0 0 && (is_byte buffer 1 0 && is_byte buffer 2 1))

abbrev pub is_start_code_4 : List ℕ → ℕ → Bool
is_start_code_4 buffer buffer_len =
    leb 4 buffer_len
    && (is_byte buffer 0 0 && (is_byte buffer 1 0 && (is_byte buffer 2 0 && is_byte buffer 3 1)))

-- The test of the loop, at a pointer with all that follows it.
abbrev pub has_code : List ℕ → Bool
has_code buffer = is_start_code_3 buffer (length buffer) || is_start_code_4 buffer (length buffer)

-- The rounds left, and the pointer; after the loop the length is taken to be 3. The one byte that this last
-- test may read behind the file is 0, as it is on the file's last page; that the read faults if the size is
-- a multiple of the page size is not modelled.
unfoldable pub find_loop : ℕ → List ℕ → Option (List ℕ)
find_loop zero buffer = if is_start_code_3 buffer 3 then some buffer else none
find_loop (suc rounds) buffer =
    let rest = find_loop rounds (drop 1 buffer) in if has_code buffer then some buffer else rest

unfoldable pub find_next_start_code : List ℕ → Option (List ℕ)
find_next_start_code buffer = find_loop (length buffer - 3) buffer

-- The pairs that `get_next_frame` returns: a frame's bytes, `{nullptr, 0}` and `{nullptr, -1}`.
pub data Frame : Type 0 where
  frame : List ℕ → Frame
  finished malformed : Frame

-- Returns the frame and the new `ptr_mapped_file_cur`.
unfoldable pub get_next_frame : List ℕ → Frame × List ℕ
get_next_frame cur =
    if length cur == 0
    then (finished, cur)
    else if not (is_start_code_4 cur (length cur)) && not (is_start_code_3 cur (length cur))
    then (malformed, cur)
    else elim (find_next_start_code (drop 3 cur)) [
      | none ↦ (finished, cur)
      | some next ↦ (frame (take (length cur - length next) cur), next)
    ]
