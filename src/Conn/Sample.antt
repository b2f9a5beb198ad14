-- ===== src/Conn/Sample.antt =====
-- A small site, a slow socket and a client, for the runs of connections and of the server.
use video_server.Base.{
  ℕ, ◌<◌, ◌^◌, ◌≡◌, refl, sym, ap, ◌∙◌, inl, inr, true, false, List, [], Option, none, some, arith,
  length, replicate, drop, leb, ◌==◌, ◌-◌, ◌+◌, ◌*◌, ◌&&◌, ◌∷◌, length-replicate, ltb,
  if◌then◌else◌, Bool-cases,
}
use video_server.Base.Int.{ℤ, pos}
use video_server.Base.Text.{codes, same_text}
use video_server.Buffer.{Buffer, Written, wrote}
use video_server.Buffer.Contents.{IsValid}
use video_server.Conn.{ServerConn, http}
use video_server.Conn.Io.Write.{IsTaken}
use video_server.Conn.Process.{World}
use video_server.Conn.Process.Http.{IsMapped, IsProvided}
use video_server.Http.Request.{initial}
use video_server.Http.Request.Users.{Mysql, Row}
use video_server.Http.Response.{Files, Stat, init_response}

abbrev page : Stat
page = record { size = 3; is_dir = false; others_read = true }

abbrev find_page : List ℕ → Option Stat
find_page path = if same_text path (codes "www/index.html") then some page else none

-- A site of one page with three bytes.
abbrev pub site : Files
site = record {
  stat = find_page;
  opens = λ path. same_text path (codes "www/index.html");
  mmap = λ path n. if n == 0 then none else some (replicate n 60);
}

abbrev pub sample_users : Mysql
sample_users = record {
  Database = List Row;
  connects = λ db. true;
  query = λ q db. (false, db);
  rows = λ db. db;
}

abbrev pub world : World
world = record {
  files = site;
  sql = sample_users;
  sscanf = λ format line ports. ports;
  date = codes "Date: Fri\r\n";
  stamp = codes "1600000000000000";
  src_dir = codes "www";
}

-- `sscanf` for formats of literal text up to a number, a dash and a number.
abbrev decimal : ℕ → List ℕ → ℕ × List ℕ
decimal n [] = (n, [])
decimal n (c ∷ s) = if leb b'0' c && leb c b'9' then decimal (n * 10 + (c - b'0')) s else (n, c ∷ s)

abbrev pub read_ports : List ℕ → List ℕ → ℤ × ℤ → ℤ × ℤ
read_ports [] line ports = ports
read_ports (f ∷ format) [] ports = ports
read_ports (f ∷ format) (c ∷ line) ports =
    let first = decimal 0 (c ∷ line) in
    if f == b'%'
    then (pos first.0, pos (decimal 0 (drop 1 first.1)).0)
    else if f == c
    then read_ports format line ports
    else ports

abbrev pub port_world : World
port_world = record world { sscanf = read_ports }

abbrev pub bytes_or : List ℕ → Option (List ℕ) → List ℕ
bytes_or d none = d
bytes_or d (some s) = s

abbrev stat_or : Stat → Option Stat → Stat
stat_or d none = d
stat_or d (some s) = s

small_page : (path : List ℕ) (s : Stat) → find_page path ≡ some s → (0 < s.size) × (s.size < 2 ^ 64)
small_page path s e = elim (Bool-cases (same_text path (codes "www/index.html"))) [
  | inl same ↦
      let size : s.size ≡ 3 = ap (λ o. (stat_or page o).size) (sym e) ∙ rw (find_page, same) refl in
      (omega arith, omega arith)
  | inr other ↦
      let missing : find_page path ≡ none = rw (find_page, other) refl in
      absurd (ground (arith, e, missing))
]

found_page :
    (path : List ℕ)
    → same_text path (codes "www/index.html") ≡ true
    → (s : Stat) × (find_page path ≡ some s)
found_page path h = (page, rw (find_page, h) refl)

map_page : (path : List ℕ) (n : ℕ) → 0 < n → (bytes : List ℕ) × (site.mmap path n ≡ some bytes)
map_page path n h =
    let some_bytes : (n == 0) ≡ false = ground arith in (replicate n 60, rw some_bytes refl)

size_of_page :
    (path : List ℕ) (n : ℕ) (bytes : List ℕ) → site.mmap path n ≡ some bytes → length bytes ≡ n
size_of_page path n bytes e = elim (Bool-cases (n == 0)) [
  | inl empty ↦ absurd (ground (arith, e, empty))
  | inr some_bytes ↦
      let page : some (replicate n 60) ≡ some bytes = rw some_bytes at e in
      ap (λ o. length (bytes_or [] o)) (sym page) ∙ length-replicate n 60
]

pub site-IsMapped : IsMapped site
site-IsMapped = record {
  found = found_page;
  filled = λ path s opened e. (small_page path s e).0;
  maps = λ path s opened e h. map_page path s.size h;
  sizes = size_of_page;
  small = λ path s e. (small_page path s e).1;
}

pub world-IsProvided : IsProvided world
world-IsProvided = record { mapped = site-IsMapped; connected = λ db. refl }

-- A socket that takes five bytes at a time.
abbrev pub slow : ℕ → List ℕ → Written
slow round offer = if ltb 5 (length offer) then wrote 5 else wrote (length offer)

pub slow-IsTaken :
    (Fails : ℕ → Type 0) (round : ℕ) (offer : List ℕ) → IsTaken Fails offer (slow round offer)
slow-IsTaken Fails round offer = elim (Bool-cases (ltb 5 (length offer))) [
  | inl more ↦ rw (slow, more) (ground (arith, more), λ z. absurd (omega arith))
  | inr all ↦ rw (slow, all) (omega arith, λ z. z)
]

abbrev pub holding : List ℕ → Buffer
holding text = record { bytes = text; read_pos = 0; write_pos = length text }

pub holding-IsValid : (text : List ℕ) → IsValid (holding text)
holding-IsValid text = record { ordered = omega arith; inside = omega arith }

-- A client that has just connected, with this in its read buffer.
abbrev pub client : List ℕ → ServerConn
client text = record {
  fd = 5;
  is_close = false;
  iov_cnt = 1;
  iov0 = record { base = 0; len = 0 };
  iov1 = record { base = 0; len = 0 };
  read_buff = holding text;
  write_buff = holding [];
  request = initial;
  response = init_response [] [] false (pos 200);
  protocol = http;
  rtsp_request = record {
    cseq = replicate 20 0;
    method = [];
    pre_suffix = replicate 200 0;
    suffix = replicate 200 0;
    rtp_port = pos 0;
    rtcp_port = pos 0;
  };
  rtsp_response = record {
    response_str = replicate 1024 0;
    file_path = replicate 20 0;
    ip = replicate 20 0;
    rtp_port = pos 0;
    rtcp_port = pos 0;
  };
}
