-- ===== src/Buffer/Refine.antt =====
-- code/buffer: a valid buffer behaves as the queue of its readable bytes.
use mathlib.Core.List.{append_assoc}
use video_server.Base.{
  ℕ, false, ◌+◌, ◌-◌, ◌≤◌, ◌≡◌, refl, sym, ap, ◌∙◌, true, ◌&&◌, inl, inr, List, [], ◌++◌, arith,
  length, take, drop, replicate, ltb, leb, ◌==◌, if◌then◌else◌, Bool-cases, length-append,
  length-replicate, length-take, take-length, take-append-drop, le→leb,
}
use video_server.Base.Run.{ok, abort, Ensures, ensures, Ensures-bind}
use video_server.Buffer.{
  Buffer, slice, overwrite, has_written, retrieve, retrieve_until, retrieve_all,
  retrieve_all_to_str, make_space, ensure_writeable, append, append_buffer, Readv, received,
  read_fd, Written, wrote, write_fd, readable_bytes, writable_bytes,
}
use video_server.Buffer.Contents.{
  contents, IsValid, length-slice, length-overwrite, slice-overwrite, slice-append, slice-front,
  drop-slice,
}

-- `b` is valid and holds exactly `xs`.
abbrev pub Holds : List ℕ → Buffer → Type 0
Holds xs b = IsValid b × (contents b ≡ xs)

-- `Retrieve(len)` of no more than is readable in a valid buffer returns, and drops the first `len`
-- bytes.
pub retrieve_drops :
    (len : ℕ) (b : Buffer)
    → IsValid b
    → len ≤ length (contents b)
    → Ensures (Holds (drop len (contents b))) (retrieve len b)
unfolding retrieve
retrieve_drops len b v h =
    let fits : len ≤ b.write_pos - b.read_pos =
      omega (arith, length-slice b.read_pos b.write_pos b.bytes v.inside) in
    rw (let e : leb len (readable_bytes b) ≡ true = ground arith in e)
      (ensures (omega arith, sym (drop-slice len b.read_pos b.write_pos b.bytes (omega arith))))

pub retrieve_moves :
    (len : ℕ) (b : Buffer)
    → len ≤ readable_bytes b
    → retrieve len b ≡ ok (record b { read_pos = b.read_pos + len })
unfolding retrieve
retrieve_moves len b h = rw (le→leb len (readable_bytes b) h)

pub retrieve_all_lem :
    (b : Buffer)
    → retrieve_all b
      ≡ record b { bytes = replicate (length b.bytes) 0; read_pos = 0; write_pos = 0 }
unfolding retrieve_all
retrieve_all_lem b = refl

-- `RetrieveUntil` a place among the readable bytes drops those before it.
pub retrieve_until_drops :
    (n : ℕ) (b : Buffer)
    → IsValid b
    → n ≤ length (contents b)
    → Ensures (Holds (drop n (contents b))) (retrieve_until (b.read_pos + n) b)
unfolding retrieve_until
retrieve_until_drops n b v h =
    let below : leb b.read_pos (b.read_pos + n) ≡ true = ground arith in
    let size : b.read_pos + n - b.read_pos ≡ n = omega arith in
    rw (below, size) (retrieve_drops n b v h)

-- `MakeSpace_(len)` keeps the readable bytes and makes room for `len` more.
make_space_room :
    (len : ℕ) (b : Buffer)
    → IsValid b
    → Ensures (λ b'. Holds (contents b) b' × (len ≤ writable_bytes b')) (make_space len b)
unfolding make_space
make_space_room len b v =
    let r = b.read_pos in
    let w = b.write_pos in
    let old = slice r w b.bytes in
    let size : length old ≡ w - r = length-slice r w b.bytes v.inside in
    let pad : List ℕ = replicate (w + len + 1 - length b.bytes) 0 in
    let grown : length (b.bytes ++ pad) ≡ length b.bytes + (w + len + 1 - length b.bytes) = omega (
      arith,
      length-append b.bytes pad,
      length-replicate {A = ℕ} (w + len + 1 - length b.bytes) 0,
    ) in
    let kept : length (overwrite 0 old b.bytes) ≡ length b.bytes =
      length-overwrite 0 old b.bytes (omega arith) in
    elim (Bool-cases (ltb (writable_bytes b + r) len)) [
      | inl short ↦
          rw short (
            ensures (((omega arith), slice-append r w b.bytes pad v.ordered v.inside), omega arith))
      | inr enough ↦
          rw (enough, let e : (w - r == 0 + (w - r) - 0) ≡ true = ground arith in e)
            (ensures
              ((omega arith, slice-front old b.bytes (0 + (w - r)) (omega arith)), ground arith))
    ]

ensure_writeable_room :
    (len : ℕ) (b : Buffer)
    → IsValid b
    → Ensures (λ b'. Holds (contents b) b' × (len ≤ writable_bytes b')) (ensure_writeable len b)
unfolding ensure_writeable
ensure_writeable_room len b v = elim (Bool-cases (ltb (writable_bytes b) len)) [
  | inl short ↦ rw short (
      Ensures-bind (make_space_room len b v)
        λ b' h. rw (le→leb len (writable_bytes b') h.1) (ensures h))
  | inr room ↦
      rw (room, le→leb len (writable_bytes b) (ground arith)) (ensures ((v, refl), ground arith))
]

-- On a valid buffer `Append` never fails an assertion, and adds exactly the bytes given behind the
-- readable ones.
pub append_extends :
    (str : List ℕ) (b : Buffer) → IsValid b → Ensures (Holds (contents b ++ str)) (append str b)
unfolding append
append_extends str b v = Ensures-bind (ensure_writeable_room (length str) b v) λ b' h.
    let size = length-overwrite b'.write_pos str b'.bytes (omega arith) in
    ensures (
      omega arith,
      slice-overwrite b'.read_pos b'.write_pos str b'.bytes h.0.0.ordered (omega arith)
          ∙ ap (λ l. l ++ str) h.0.1,
    )

-- `Append(const Buffer&)` adds the readable bytes of the other buffer.
pub append_buffer_extends :
    (src b : Buffer)
    → IsValid b
    → Ensures (Holds (contents b ++ contents src)) (append_buffer src b)
unfolding append_buffer
append_buffer_extends src b v = append_extends (contents src) b v

-- `RetrieveAll` leaves a valid empty buffer.
pub retrieve_all_empties : (b : Buffer) → Holds [] (retrieve_all b)
unfolding retrieve_all
retrieve_all_empties b = (omega arith, refl)

-- `RetrieveAllToStr` returns the readable bytes and leaves a valid empty buffer.
pub retrieve_all_to_str_drains :
    (b : Buffer) → ((retrieve_all_to_str b).0 ≡ contents b) × Holds [] (retrieve_all_to_str b).1
unfolding retrieve_all_to_str
retrieve_all_to_str_drains b = (refl, (omega arith, refl))

pub read_fd-failed : (e : ℕ) (b : Buffer) → read_fd (Readv.failed e) b ≡ ok (Readv.failed e, b)
unfolding read_fd
read_fd-failed e b = refl

pub has_written_lem :
    (len : ℕ) (b : Buffer) → has_written len b ≡ record b { write_pos = b.write_pos + len }
unfolding has_written
has_written_lem len b = refl

-- `Append` of what fits moves nothing.
pub append_in_place :
    (str : List ℕ) (b : Buffer)
    → length str ≤ writable_bytes b
    → append str b
      ≡ ok (record b {
        bytes = overwrite b.write_pos str b.bytes;
        write_pos = b.write_pos + length str;
      })
unfolding append ensure_writeable has_written
append_in_place str b fits =
    let room : ltb (writable_bytes b) (length str) ≡ false = ground arith in
    let enough : leb (length str) (writable_bytes b) ≡ true = ground arith in rw (room, enough) refl

-- `ReadFd` on a valid buffer returns what `readv` delivers, and every byte received ends up behind
-- the readable ones, whether it fitted the vector or went over the stack buffer.
pub read_fd_extends :
    (got : List ℕ) (b : Buffer)
    → IsValid b
    → Ensures (λ r. (r.0 ≡ received got) × Holds (contents b ++ got) r.1) (read_fd (received got) b)
unfolding read_fd
read_fd_extends got b v = elim (Bool-cases (leb (length got) (writable_bytes b))) [
  | inl fits ↦
      let whole : take (writable_bytes b) got ≡ got =
        take-length (writable_bytes b) got (ground arith) in
      let size = length-overwrite b.write_pos got b.bytes (ground arith) in
      rw (fits, whole)
        (ensures (
          refl,
          (
            ground arith,
            slice-overwrite b.read_pos b.write_pos got b.bytes v.ordered (ground arith),
          ),
        ))
  | inr more ↦
      let first = take (writable_bytes b) got in
      let room : length first ≡ writable_bytes b =
        length-take (writable_bytes b) got ∙ ground arith in
      let size = length-overwrite b.write_pos first b.bytes (ground arith) in
      let full : Buffer = record {
        bytes = overwrite b.write_pos first b.bytes;
        read_pos = b.read_pos;
        write_pos = length (overwrite b.write_pos first b.bytes);
      } in
      let end : length (overwrite b.write_pos first b.bytes) ≡ b.write_pos + length first =
        omega arith in
      let so_far : contents full ≡ contents b ++ first =
        ap (λ e. slice b.read_pos e (overwrite b.write_pos first b.bytes)) end
        ∙ slice-overwrite b.read_pos b.write_pos first b.bytes v.ordered (omega arith) in
      rw more (
        Ensures-bind
          (append_extends (drop (writable_bytes b) got) full
            (record { ordered = omega arith; inside = omega arith }))
          λ b' h. ensures (
            refl,
            (
              h.0,
              h.1
                  ∙ ap (λ l. l ++ drop (writable_bytes b) got) so_far
                  ∙ append_assoc (contents b) first (drop (writable_bytes b) got)
                  ∙ ap (λ l. contents b ++ l) (take-append-drop (writable_bytes b) got),
            ),
          ))
]

pub write_fd-failed : (e : ℕ) (b : Buffer) → write_fd (Written.failed e) b ≡ b
unfolding write_fd
write_fd-failed e b = refl

-- `WriteFd` takes off the front what `write` accepted.
pub write_fd_drops :
    (n : ℕ) (b : Buffer)
    → IsValid b
    → n ≤ length (contents b)
    → Holds (drop n (contents b)) (write_fd (wrote n) b)
unfolding write_fd
write_fd_drops n b v h =
    let fits : n ≤ b.write_pos - b.read_pos =
      omega (arith, length-slice b.read_pos b.write_pos b.bytes v.inside) in
    (omega arith, sym (drop-slice n b.read_pos b.write_pos b.bytes (omega arith)))

-- `RetrieveUntil` aborts exactly at an end before the read position or past the readable bytes,
-- and otherwise moves the read position there.
pub retrieve_until-eq-retrieve :
    (end : ℕ) (b : Buffer)
    → retrieve_until end b ≡ (
        if leb b.read_pos end && leb (end - b.read_pos) (readable_bytes b)
        then ok (record b { read_pos = b.read_pos + (end - b.read_pos) })
        else abort)
unfolding retrieve_until retrieve
retrieve_until-eq-retrieve end b = ground arith
