-- ===== src/Conn/Io/Advance.antt =====
-- The vectors after `writev` took some bytes: they point at the rest.
use video_server.Base.{
  ℕ, ◌+◌, ◌-◌, ◌%◌, ◌^◌, ◌≤◌, ◌<◌, ◌≡◌, refl, sym, ap, ◌∙◌, inl, inr, Bool, true, false, List, ◌++◌,
  arith, length, take, drop, ltb, ltb→lt, ltb→le, ◌==◌, Bool-cases, length-append, length-take,
  drop-append_le, drop-append_ge, drop-take, drop-sum,
}
use video_server.Base.Run.{Ensures, ensures}
use video_server.Buffer.{readable_bytes}
use video_server.Buffer.Contents.{contents, IsValid, drop-slice}
use video_server.Buffer.Refine.{retrieve_moves, retrieve_all_lem}
use video_server.Conn.{ServerConn}
use video_server.Conn.Io.{bytes_of, file_of, advance}
use video_server.Conn.Io.Ready.{file_left, IsReady, pending, length-contents, Kept}

-- What one round keeps.
abbrev pub Advanced : ℕ → ServerConn → Bool × ServerConn → Type 0
Advanced n c (stopped, d) =
    (stopped ≡ false) × (IsReady d × (Kept c d × (pending d ≡ drop n (pending c))))

length-file_left : (c : ServerConn) → length (file_left c) ≤ c.iov1.len
length-file_left c = elim (Bool-cases (ltb 1 c.iov_cnt)) [
  | inl two ↦ rw two (omega (arith, length-take c.iov1.len (drop c.iov1.base (file_of c))))
  | inr one ↦ rw one (omega arith)
]

-- The bytes of a vector that has moved on.
bytes_of-moved :
    (base len over : ℕ) (memory : List ℕ)
    → over ≤ len
    → take (len - over) (drop (base + over) memory) ≡ drop over (take len (drop base memory))
bytes_of-moved base len over memory h = rw (
  drop-take over len (len - over) (drop base memory) (omega arith),
  drop-sum base over (base + over) memory refl,
)

module _ (n : ℕ) (c : ServerConn) (v : IsReady c) (some_bytes : 0 < n)
    (fits : n ≤ length (pending c)) where
  pending_size : length (pending c) ≡ c.iov0.len + length (file_left c)
  pending_size =
      length-append (contents c.write_buff) (file_left c) ∙ omega (arith, length-contents c v)

  -- The bytes taken end in the first vector.
  within_first :
      n ≤ c.iov0.len
      → Advanced n c (
        false,
        record c {
          iov0 = record { base = c.iov0.base + n; len = c.iov0.len - n };
          write_buff = record c.write_buff { read_pos = c.write_buff.read_pos + n };
        },
      )
  within_first h =
      let b = c.write_buff in
      (
        refl,
        (
          record {
            valid = omega (arith, v);
            sized = omega (arith, v);
            placed = elim v.placed [ inl empty ↦ inl (omega arith) | inr at ↦ inr (omega arith) ];
            filed = v.filed;
            small = v.small;
          },
          (
            (refl, refl),
            ap (λ t. t ++ file_left c)
                  (sym (drop-slice n b.read_pos b.write_pos b.bytes (omega (arith, v))))
                ∙ sym (
                    drop-append_le n (contents b) (file_left c)
                      (omega (arith, length-contents c v))),
          ),
        ),
      )

  -- The bytes taken end in the file; `d` has the second vector moved on and nothing else to send.
  past_first :
      (d : ServerConn)
      → c.iov0.len < n
      → d.iov1
        ≡ record { base = c.iov1.base + (n - c.iov0.len); len = c.iov1.len - (n - c.iov0.len) }
      → d.iov_cnt ≡ c.iov_cnt
      → file_of d ≡ file_of c
      → IsValid d.write_buff
      → readable_bytes d.write_buff ≡ 0
      → d.iov0.len ≡ 0
      → Kept c d
      → Advanced n c (false, d)
  past_first d h moved cnt file valid none_left none_first kept =
      elim (Bool-cases (ltb 1 c.iov_cnt)) [
        | inr one ↦
            let nothing : length (file_left c) ≡ 0 = rw one refl in
            absurd (omega (arith, pending_size))
        | inl two ↦ elim v.filed [
          | inl one ↦ absurd (ground (arith, one, two))
          | inr inside ↦ (refl, (ready two inside, (kept, sent two)))
        ]
      ]
    where
      over_le : n - c.iov0.len ≤ c.iov1.len
      over_le = omega (arith, pending_size, length-file_left c)

      ready : ltb 1 c.iov_cnt ≡ true → c.iov1.base + c.iov1.len ≤ length (file_of c) → IsReady d
      ready two inside = record {
        valid = valid;
        sized = none_first ∙ sym none_left;
        placed = inl none_first;
        filed = inr (rw (moved, file) (omega (arith, over_le)));
        small = rw file v.small;
      }

      sent : ltb 1 c.iov_cnt ≡ true → pending d ≡ drop n (pending c)
      sent two =
          rw (none_left, cnt, two, moved, file)
            (bytes_of-moved c.iov1.base c.iov1.len (n - c.iov0.len) (file_of c) over_le
              ∙ sym (
                  drop-append_ge n (n - c.iov0.len) (contents c.write_buff)
                    (bytes_of c.iov1 (file_of c)) (omega (arith, length-contents c v))))

-- `iov_len -= over`, of a `size_t`.
shrunk : (len over : ℕ) → over ≤ len → len < 2 ^ 64 → (len + (2 ^ 64 - over)) % 2 ^ 64 ≡ len - over
shrunk len over h small = omega arith

second_size :
    (n : ℕ) (c : ServerConn)
    → IsReady c
    → c.iov0.len < n
    → n ≤ length (pending c)
    → (n - c.iov0.len ≤ c.iov1.len) × (c.iov1.len < 2 ^ 64)
second_size n c v past fits =
    let size = pending_size n c v (omega arith) fits in
    elim (Bool-cases (ltb 1 c.iov_cnt)) [
      | inr one ↦
          let nothing : length (file_left c) ≡ 0 = rw one refl in absurd (omega (arith, size))
      | inl two ↦ elim v.filed [
        | inl one ↦ absurd (ground (arith, one, two))
        | inr inside ↦ (omega (arith, size, length-file_left c), omega (arith, inside, v.small))
      ]
    ]

pub advance_takes :
    (n : ℕ) (c : ServerConn)
    → IsReady c
    → 0 < n
    → n ≤ length (pending c)
    → Ensures (Advanced n c) (advance n c)
unfolding advance
advance_takes n c v some_bytes fits =
    let size = pending_size n c v some_bytes fits in
    let more : (c.iov0.len + c.iov1.len == 0) ≡ false = ground (arith, size, length-file_left c) in
    rw more (elim (Bool-cases (ltb c.iov0.len n)) [
      | inr first ↦
          let below = ltb→le c.iov0.len n first in
          rw (first, retrieve_moves n c.write_buff (omega (arith, v)))
            (ensures (within_first n c v some_bytes fits below))
      | inl past ↦
          let beyond = ltb→lt c.iov0.len n past in
          let bounds = second_size n c v beyond fits in
          let moved = shrunk c.iov1.len (n - c.iov0.len) bounds.0 bounds.1 in
          rw past (elim (Bool-cases (c.iov0.len == 0)) [
            | inl empty ↦
                rw (empty, moved)
                  (ensures (
                    past_first n c v some_bytes fits _ beyond refl refl refl v.valid
                      (sym v.sized ∙ ground (arith, empty)) (ground (arith, empty)) (refl, refl)))
            | inr filled ↦
                rw (filled, moved, retrieve_all_lem c.write_buff)
                  (ensures (
                    past_first n c v some_bytes fits _ beyond refl refl refl
                      (record { ordered = omega arith; inside = omega arith }) refl refl
                      (refl, refl)))
          ])
    ])
