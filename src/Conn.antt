-- ===== src/Conn.antt =====
-- code/http/serverconn.h and serverconn.cpp: a client's connection.
-- `iov_[0]` points into the write buffer and `iov_[1]` into the mapped file: a base is an index there.
-- The two vectors and `iovCnt_` have no value until a request is processed: any values stand for them.
pub mod Io
pub mod Process
pub mod Sample
mod Tests
use video_server.Base.{
  ℕ, ◌+◌, ◌-◌, ◌%◌, ◌^◌, ◌≤◌, ◌≡◌, refl, Bool, true, false, ◌||◌, List, [], ◌++◌, Option, none,
  some, length, take, drop, ltb, ◌==◌, if◌then◌else◌, arith,
}
use video_server.Base.Int.{ℤ, pos, negsuc, to_int}
use video_server.Base.Run.{Run, ok, ◌>>=◌, Ensures, ensures, Ensures-bind}
use video_server.Buffer.{Buffer, retrieve_all}
use video_server.Http.Request.{HttpRequest}
use video_server.Http.Response.{HttpResponse, unmap_file}
use video_server.Rtsp.{RtspRequest}
use video_server.Rtsp.Response.{RtspResponse, init_ip, init_ip-Ensures}

pub record Iovec : Type 0 where
  pub base : ℕ
  pub len : ℕ

-- `PROTOCOL`
pub data Protocol : Type 0 where
  http rtsp : Protocol

-- `m_protocolType` has no value either until a line names a protocol.
pub record ServerConn : Type 0 where
  pub fd : ℕ
  pub is_close : Bool
  pub iov_cnt : ℕ
  pub iov0 : Iovec
  pub iov1 : Iovec
  pub read_buff : Buffer
  pub write_buff : Buffer
  pub request : HttpRequest
  pub response : HttpResponse
  pub protocol : Protocol
  pub rtsp_request : RtspRequest
  pub rtsp_response : RtspResponse

-- `init`, with the text of the client's address, and `userCount`.
unfoldable pub init_conn : ℕ → List ℕ → ServerConn → ℕ → Run (ServerConn × ℕ)
init_conn fd ip c user_count = init_ip ip c.rtsp_response >>= λ r. ok (
  record c {
    fd = fd;
    write_buff = retrieve_all c.write_buff;
    read_buff = retrieve_all c.read_buff;
    is_close = false;
    rtsp_response = r;
  },
  user_count + 1,
)

-- `Close`, and `userCount`; true if the descriptor is closed.
unfoldable pub close_conn : ServerConn → ℕ → ServerConn × (ℕ × Bool)
close_conn c user_count =
    let unmapped = record c { response = unmap_file c.response } in
    if c.is_close
    then (unmapped, (user_count, false))
    else (record unmapped { is_close = true }, (user_count - 1, true))

-- `ToWriteBytes`: the sum of the `size_t`s, cut to an `int`.
abbrev pub to_write_bytes : ServerConn → ℤ
to_write_bytes c =
    if ltb 1 c.iov_cnt then to_int ((c.iov0.len + c.iov1.len) % 2 ^ 64) else to_int c.iov0.len

-- `n > k`, of an `int`
abbrev pub greater_than : ℤ → ℕ → Bool
greater_than (pos n) k = ltb k n
greater_than (negsuc n) k = false

pub close_conn_lem :
    (c : ServerConn) (n : ℕ)
    → ((close_conn c n).0.fd ≡ c.fd)
      × ((close_conn c n).0.is_close ≡ true)
      × ((close_conn c n).1.0 ≡ (if c.is_close then n else n - 1))
unfolding close_conn
close_conn_lem c n = ground arith

pub init_conn-Ensures :
    (fd : ℕ) (ip : List ℕ) (c : ServerConn) (n : ℕ)
    → length ip ≤ 20
    → Ensures (λ r. (r.0.fd ≡ fd) × (r.0.is_close ≡ false) × (r.1 ≡ n + 1)) (init_conn fd ip c n)
unfolding init_conn
init_conn-Ensures fd ip c n h =
    Ensures-bind (init_ip-Ensures ip c.rtsp_response h) λ r _. ensures (refl, refl, refl)

-- `d` is the connection `c`, open or closed as before.
abbrev pub IsSame : ServerConn → ServerConn → Type 0
IsSame c d = (d.fd ≡ c.fd) × (d.is_close ≡ c.is_close)
