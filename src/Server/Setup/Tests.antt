-- ===== src/Server/Setup/Tests.antt =====
-- Runs of the set-up.
use video_server.Base.{◌+◌, ◌≡◌, refl, true, false, List, [], ◌∷◌}
use video_server.Base.Int.{pos, negsuc}
use video_server.Base.Run.{ok, abort}
use video_server.Server.Setup.{
  SocketCall, opens, sets_linger, sets_reuse, binds, closes, Kernel, init_socket, close_count,
  init_socket-closes,
}

-- The port is in use.
abbrev in_use : Kernel
in_use = record {
  socket = pos 3;
  linger = pos 0;
  reuse = pos 0;
  bind = negsuc 0;
  listen = pos 0;
  added = true;
}

init_socket-in_use :
    init_socket (pos 1316) false in_use
    ≡ ok (false, opens ∷ sets_linger 0 0 ∷ sets_reuse ∷ binds (pos 1316) ∷ closes ∷ [])
unfolding init_socket
init_socket-in_use = refl

-- The same with every call going well on descriptor 0.
init_socket-zero :
    init_socket (pos 1316) false (record in_use { socket = pos 0; bind = pos 0 }) ≡ abort
unfolding init_socket
init_socket-zero = refl

init_socket-closes_example :
    (calls : List SocketCall) × ((init_socket (pos 1316) false in_use ≡ ok (false, calls))
      × (close_count calls + 0 ≡ 1))
init_socket-closes_example = init_socket-closes (pos 1316) false in_use
