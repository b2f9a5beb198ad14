-- ===== src/Rtp/Session/Sample.antt =====
-- A machine with one file, and a client of it, for the runs of streams.
use video_server.Base.{ℕ, List, [], ◌∷◌, some, replicate, if◌then◌else◌, Bool}
use video_server.Base.Int.{ℤ, pos, negsuc, is_negative}
use video_server.Base.Text.{codes, same_text}
use video_server.Rtp.Session.{System}

abbrev pub two_units : List ℕ
two_units = 0 ∷ 0 ∷ 0 ∷ 1 ∷ 103 ∷ 7 ∷ 0 ∷ 0 ∷ 1 ∷ 104 ∷ []

abbrev find_file : List ℕ → ℤ
find_file path = if same_text path (codes "a.264") then pos 7 else negsuc 0

abbrev socket_of : Bool → ℤ
socket_of which = if which then pos 8 else pos 9

abbrev pub bind_any : ℤ → ℕ → ℤ
bind_any fd port = if is_negative fd then negsuc 0 else pos 0

-- The address is not read here.
abbrev pub system : System
system = record {
  open_file = find_file;
  file_size = λ fd. 10;
  mmap = λ fd n. some two_units;
  socket = socket_of;
  reuse = λ which. pos 0;
  send_buffer = λ which. pos 0;
  bind = bind_any;
  inet_pton = λ text. 0;
  close = λ fd. pos 0;
  munmap = λ bytes. pos 0;
}

abbrev pub unset : List ℕ
unset = replicate 20 0
