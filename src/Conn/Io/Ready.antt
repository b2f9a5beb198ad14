-- ===== src/Conn/Io/Ready.antt =====
-- When the vectors point at what is to be sent, and what is left of it.
use mathlib.Core.List.{append-nil}
use video_server.Base.{
  ℕ, ◌+◌, ◌-◌, ◌^◌, ◌≤◌, ◌<◌, ◌≡◌, refl, sym, ◌∙◌, ◌⊎◌, inl, inr, false, List, [], ◌++◌, arith,
  length, ltb, if◌then◌else◌, Bool-cases,
}
use video_server.Buffer.{readable_bytes}
use video_server.Buffer.Contents.{contents, IsValid, length-slice}
use video_server.Conn.{ServerConn}
use video_server.Conn.Io.{bytes_of, file_of, offered}

-- The part of the file that is still to be sent.
abbrev pub file_left : ServerConn → List ℕ
file_left c = if ltb 1 c.iov_cnt then bytes_of c.iov1 (file_of c) else []

-- The first vector is the readable part of the write buffer, the second lies within the file.
pub record IsReady (c : ServerConn) : Type 0 where
  pub valid : IsValid c.write_buff
  pub sized : c.iov0.len ≡ readable_bytes c.write_buff
  pub placed : (c.iov0.len ≡ 0) ⊎ (c.iov0.base ≡ c.write_buff.read_pos)
  pub filed : (ltb 1 c.iov_cnt ≡ false) ⊎ (c.iov1.base + c.iov1.len ≤ length (file_of c))
  pub small : length (file_of c) < 2 ^ 64

-- What is left to send.
abbrev pub pending : ServerConn → List ℕ
pending c = contents c.write_buff ++ file_left c

first-eq-contents :
    (c : ServerConn) → IsReady c → bytes_of c.iov0 c.write_buff.bytes ≡ contents c.write_buff
first-eq-contents c v = elim v.placed [
  | inl empty ↦
      let none_left : c.write_buff.write_pos - c.write_buff.read_pos ≡ 0 = omega (arith, v) in
      rw (empty, none_left)
  | inr at ↦ rw (v.sized, at)
]

pub offered-eq-pending : (c : ServerConn) → IsReady c → offered c ≡ pending c
offered-eq-pending c v = rw (first-eq-contents c v) (elim (Bool-cases (ltb 1 c.iov_cnt)) [
  | inl two ↦ rw two refl
  | inr one ↦ rw one (sym (append-nil (contents c.write_buff)))
])

pub length-contents : (c : ServerConn) → IsReady c → length (contents c.write_buff) ≡ c.iov0.len
length-contents c v =
    let b = c.write_buff in length-slice b.read_pos b.write_pos b.bytes v.valid.inside ∙ sym v.sized

-- Writing leaves the input and the protocol as they are.
abbrev pub Kept : ServerConn → ServerConn → Type 0
Kept c d = (d.read_buff ≡ c.read_buff) × (d.protocol ≡ c.protocol)
