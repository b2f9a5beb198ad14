-- ===== src/Buffer.antt =====
-- code/buffer/buffer.h and buffer.cpp: a growing byte buffer with a read and a write position.
-- The vector is a list of bytes; a pointer into it is its index, `Peek()` is `read_pos`.
-- A copy out of a range of the vector takes the bytes that exist there.
pub mod Contents
pub mod Refine
pub mod Runs
mod Tests
use video_server.Base.{
  ℕ, ◌+◌, ◌-◌, List, ◌++◌, length, take, drop, replicate, ltb, leb, ◌==◌, if◌then◌else◌,
}
use video_server.Base.Run.{Run, ok, ◌>>=◌, ◌>>◌, check}

pub record Buffer : Type 0 where
  pub bytes : List ℕ
  pub read_pos : ℕ
  pub write_pos : ℕ

pub new : ℕ → Buffer
new n = record { bytes = replicate n 0; read_pos = 0; write_pos = 0 }

abbrev pub readable_bytes : Buffer → ℕ
readable_bytes b = b.write_pos - b.read_pos

abbrev pub writable_bytes : Buffer → ℕ
writable_bytes b = length b.bytes - b.write_pos

abbrev pub prependable_bytes : Buffer → ℕ
prependable_bytes b = b.read_pos

-- `[from, to)` of the vector
abbrev pub slice : ℕ → ℕ → List ℕ → List ℕ
slice from to xs = take (to - from) (drop from xs)

-- `std::copy(src, src + n, vector + at)`: the bytes at `at` are overwritten.
abbrev pub overwrite : ℕ → List ℕ → List ℕ → List ℕ
overwrite at src xs = take at xs ++ (src ++ drop (at + length src) xs)

-- `vector::resize` to a larger size
abbrev pub resize : ℕ → List ℕ → List ℕ
resize n xs = xs ++ replicate (n - length xs) 0

pub retrieve : ℕ → Buffer → Run Buffer
retrieve len b = check (leb len (readable_bytes b)) >> ok (record b { read_pos = b.read_pos + len })

-- `end` is an index into the vector.
pub retrieve_until : ℕ → Buffer → Run Buffer
retrieve_until end b = check (leb b.read_pos end) >> retrieve (end - b.read_pos) b

unfoldable pub retrieve_all : Buffer → Buffer
retrieve_all b = record b { bytes = replicate (length b.bytes) 0; read_pos = 0; write_pos = 0 }

pub retrieve_all_to_str : Buffer → List ℕ × Buffer
unfolding retrieve_all
retrieve_all_to_str b = (slice b.read_pos b.write_pos b.bytes, retrieve_all b)

pub has_written : ℕ → Buffer → Buffer
has_written len b = record b { write_pos = b.write_pos + len }

pub make_space : ℕ → Buffer → Run Buffer
make_space len b =
    if ltb (writable_bytes b + prependable_bytes b) len
    then ok (record b { bytes = resize (b.write_pos + len + 1) b.bytes })
    else (let readable = readable_bytes b in
        let b' : Buffer = record {
          bytes = overwrite 0 (slice b.read_pos b.write_pos b.bytes) b.bytes;
          read_pos = 0;
          write_pos = 0 + readable;
        } in
        check (readable == readable_bytes b') >> ok b')

pub ensure_writeable : ℕ → Buffer → Run Buffer
unfolding make_space
ensure_writeable len b = do
  b' ← if ltb (writable_bytes b) len then make_space len b else ok b
  check (leb len (writable_bytes b'))
  ok b'

-- `Append(const char*, size_t)`; the overloads for a string and a buffer come down to it.
pub append : List ℕ → Buffer → Run Buffer
unfolding ensure_writeable has_written
append str b = do
  b' ← ensure_writeable (length str) b
  let copied : Buffer = record b' { bytes = overwrite b'.write_pos str b'.bytes }
  ok (has_written (length str) copied)

pub append_buffer : Buffer → Buffer → Run Buffer
unfolding append
append_buffer src b = append (slice src.read_pos src.write_pos src.bytes) b

-- What `readv` delivers: the bytes that the kernel scatters, or an error number.
pub data Readv : Type 0 where
  received : List ℕ → Readv
  failed : ℕ → Readv

-- The stack buffer `buff`.
abbrev pub extra_size : ℕ
extra_size = 65535

-- `ReadFd`: returns the byte count, or the error number that `*saveErrno` gets, and the buffer.
-- The first part goes past the write position, the rest to the stack buffer and from there by
-- `Append`.
pub read_fd : Readv → Buffer → Run (Readv × Buffer)
unfolding append has_written
read_fd (failed e) b = ok (failed e, b)
read_fd (received got) b =
    let writable = writable_bytes b in
    let scattered : Buffer = record b {
      bytes = overwrite b.write_pos (take writable got) b.bytes;
    } in
    if leb (length got) writable then ok (received got, has_written (length got) scattered) else (do
      b' ← append (drop writable got) (record scattered { write_pos = length scattered.bytes })
      ok (received got, b'))

-- What `write` reports: the count of bytes taken, or an error number.
pub data Written : Type 0 where
  wrote : ℕ → Written
  failed : ℕ → Written

-- `WriteFd`: `Retrieve` is not called here, so nothing checks the count.
pub write_fd : Written → Buffer → Buffer
write_fd (Written.failed e) b = b
write_fd (wrote n) b = record b { read_pos = b.read_pos + n }
