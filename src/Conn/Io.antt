-- ===== src/Conn/Io.antt =====
-- `ServerConn::read` and `ServerConn::write`: the loops over the socket.
-- The kernel is a parameter: what `readv` delivers and how much `writev` takes, call by call.
pub mod Ready
pub mod Advance
pub mod Write
pub mod Read
pub mod Same
use video_server.Base.{
  ℕ, zero, suc, ◌+◌, ◌-◌, ◌%◌, ◌^◌, ◌≤◌, ◌≡◌, Bool, true, false, not, ◌||◌, List, [], ◌∷◌, ◌++◌,
  Option, none, some, length, take, drop, ltb, ◌==◌, if◌then◌else◌,
}
use video_server.Base.Run.{Run, ok, out_of_fuel, ◌>>=◌}
use video_server.Buffer.{Buffer, Readv, received, Written, wrote, retrieve, retrieve_all, read_fd}
use video_server.Conn.{ServerConn, Iovec, to_write_bytes, greater_than}

-- `len <= 0`
abbrev pub is_stop : Readv → Bool
is_stop (received got) = length got == 0
is_stop (Readv.failed e) = true

-- `read`, with the results of the calls to come; returns the last result and what is left of them.
pub read_loop : Bool → List Readv → Buffer → Run (Readv × Buffer)
read_loop is_et [] b = out_of_fuel
read_loop is_et (r ∷ rs) b = read_fd r b >>= λ p. (elim (is_stop p.0 || not is_et) [
  | true ↦ ok p
  | false ↦ read_loop is_et rs p.1
])

pub read : Bool → List Readv → ServerConn → Run (Readv × ServerConn)
read is_et rs c = read_loop is_et rs c.read_buff >>= λ p. ok (p.0, record c { read_buff = p.1 })

-- The bytes that a vector points at.
abbrev pub bytes_of : Iovec → List ℕ → List ℕ
bytes_of v memory = take v.len (drop v.base memory)

abbrev pub file_of : ServerConn → List ℕ
file_of c = elim c.response.file [ none ↦ [] | some bytes ↦ bytes ]

-- What `writev(fd_, iov_, iovCnt_)` offers to the kernel.
abbrev pub offered : ServerConn → List ℕ
offered c =
    let head = bytes_of c.iov0 c.write_buff.bytes in
    if ltb 1 c.iov_cnt then head ++ bytes_of c.iov1 (file_of c) else head

-- The vectors after `len` bytes were taken, `len > 0`; true is the `break` at the end of the data.
pub advance : ℕ → ServerConn → Run (Bool × ServerConn)
advance len c =
    let over = len - c.iov0.len in
    let second : Iovec = record {
      base = c.iov1.base + over;
      len = (c.iov1.len + (2 ^ 64 - over)) % 2 ^ 64;
    } in
    let moved = record c { iov1 = second } in
    let first_done = record moved {
      write_buff = retrieve_all c.write_buff;
      iov0 = record c.iov0 { len = 0 };
    } in
    let first : Iovec = record { base = c.iov0.base + len; len = c.iov0.len - len } in
    if c.iov0.len + c.iov1.len == 0
    then ok (true, c)
    else if ltb c.iov0.len len
    then ok (false, if c.iov0.len == 0 then moved else first_done)
    else retrieve len c.write_buff >>= λ b. ok (false, record c { iov0 = first; write_buff = b })

-- What a call of `write` returns and leaves, with all bytes that the kernel took.
pub record Writing : Type 0 where
  pub result : Written
  pub conn : ServerConn
  pub taken : List ℕ

-- `while(isET || ToWriteBytes() > 10240)`
abbrev pub goes_on : Bool → ServerConn → Bool
goes_on is_et c = is_et || greater_than (to_write_bytes c) 10240

-- `write`: the kernel takes a number of bytes for the round and what is offered, or reports an error.
pub write_loop : (ℕ → List ℕ → Written) → Bool → ℕ → ℕ → ServerConn → Run Writing
write_loop kernel is_et zero round c = out_of_fuel
write_loop kernel is_et (suc fuel) round c = elim (kernel round (offered c)) [
  | Written.failed e ↦ ok (record { result = Written.failed e; conn = c; taken = [] })
  | wrote zero ↦ ok (record { result = wrote 0; conn = c; taken = [] })
  | wrote (suc n) ↦ advance (suc n) c >>= λ p.
      let here = take (suc n) (offered c) in
      elim (p.0 || not (goes_on is_et p.1)) [
        | true ↦ ok (record { result = wrote (suc n); conn = p.1; taken = here })
        | false ↦ write_loop kernel is_et fuel (suc round) p.1 >>= λ w.
            ok (record w { taken = here ++ w.taken })
      ]
]

-- Each round takes a byte at least.
pub write : (ℕ → List ℕ → Written) → Bool → ServerConn → Run Writing
write kernel is_et c = write_loop kernel is_et (length (offered c) + 1) 0 c
