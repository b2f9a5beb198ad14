-- ===== src/Server/Steps/Tests.antt =====
-- A run of the loop, and the theorems at the states of it.
use video_server.Base.{ℕ, ◌≡◌, refl, inl, inr, true, List, [], ◌∷◌, arith}
use video_server.Base.Run.{Run, ok, abort, out_of_fuel, Ensures}
use video_server.Base.Text.{codes}
use video_server.Buffer.{retrieve_all}
use video_server.Conn.{init_conn, close_conn}
use video_server.Conn.Sample.{world, client}
use video_server.Rtsp.Response.{init_ip}
use video_server.Timer.Heap.{
  TimerNode, swap_node, siftup_loop, siftup, siftdown_loop, siftdown, settle, add, del, pop, adjust,
  tick_loop, tick, get_next_tick,
}
use video_server.Server.Users.{lookup, insert}
use video_server.Server.Interest.{interest}
use video_server.Server.Loop.{
  reads, Event, Accepted, Config, WebServer, next_tick, wait_events, handle_next, report_all,
  dispatch, deal, deal_listen, add_client, extent_time, close_client, close_clients,
}
use video_server.Server.Loop.Accept.{IsSound}
use video_server.Server.Loop.Round.{AreWaiting}
use video_server.Server.Steps.{started, begins, handles, Reach, here, next}
use video_server.Server.Steps.Sound.{
  started-IsSound, Reach-IsSound, handle_next-Reach, next_tick-Reach,
}
use video_server.Server.Steps.Claims.{IsExclusive}
use video_server.Server.Steps.Exclusive.{Reach-IsExclusive}

abbrev stray : TimerNode
stray = record { id = 0; expires = 0; cb = 0 }

-- The listening socket is 3, and a timeout is a second or none.
abbrev config : ℕ → Config
config timeout = record { listen_fd = 3; listen_et = true; timeout = timeout }

-- A client that comes to descriptor 5, and an event of it for reading.
abbrev visitor : ℕ → Accepted
visitor now = record { fd = 5; ip = codes "10.0.0.7"; now = now }

abbrev calls : Event
calls = record { fd = 3; events = 1 }

abbrev input : Event
input = record { fd = 5; events = 1 }

abbrev value : Run WebServer → WebServer → WebServer
value (ok s) d = s
value abort d = d
value out_of_fuel d = d

-- A round with one event, from a state in which all are handled.
abbrev turned : ℕ → ℕ → Event → WebServer → WebServer
turned timeout now e s =
    wait_events (config timeout) (e ∷ []) (value (next_tick stray (config timeout) (λ i. now) s) s)

abbrev handled : ℕ → ℕ → List Accepted → WebServer → WebServer
handled timeout now accepts s =
    value (handle_next stray (client []) (config timeout) now accepts s) s

-- The client is accepted, and sends.
abbrev served : ℕ → WebServer
served timeout = handled timeout 4 [] (
    turned timeout 3 input
      (handled timeout 2 (visitor 2 ∷ []) (turned timeout 1 calls (started 1))))

served_tasks : (served 1000).tasks ≡ reads 5 ∷ []
unfolding next_tick wait_events handle_next report_all dispatch deal deal_listen add_client
    extent_time close_client close_clients init_conn close_conn retrieve_all init_ip swap_node
    siftup_loop siftup siftdown_loop siftdown settle add del pop adjust tick_loop tick get_next_tick
    lookup insert
served_tasks = refl

-- The timeout closes the connection while its task waits; its descriptor is given to a new client,
-- and a second task for it stands beside the first.
reused_tasks :
    (handled 1000 2000000003 [] (
      turned 1000 2000000002 input (
        handled 1000 2000000001
          (visitor 2000000001 ∷ [])
          (turned 1000 2000000000 calls (served 1000))))).tasks
    ≡ reads 5 ∷ reads 5 ∷ []
unfolding next_tick wait_events handle_next report_all dispatch deal deal_listen add_client
    extent_time close_client close_clients init_conn close_conn retrieve_all init_ip swap_node
    siftup_loop siftup siftdown_loop siftdown settle add del pop adjust tick_loop tick get_next_tick
    lookup insert
reused_tasks = refl

-- The states of the run, with a timeout.
abbrev asked : WebServer
asked = turned 1000 1 calls (started 1)

abbrev joined : WebServer
joined = handled 1000 2 (visitor 2 ∷ []) asked

asked-Reach : Reach world stray (client []) (config 1000) (started 1) asked
unfolding next_tick close_clients tick_loop tick get_next_tick
asked-Reach = next here (
    begins (λ i. 1) (calls ∷ []) (started 1) refl (omega arith) (λ i. omega arith) refl
      (inl refl, tt))

joined-Reach : Reach world stray (client []) (config 1000) (started 1) joined
unfolding next_tick wait_events handle_next report_all dispatch deal_listen add_client close_clients
    init_conn retrieve_all init_ip swap_node siftup_loop siftup add tick_loop tick get_next_tick
    lookup insert
joined-Reach = next asked-Reach (
    handles 2 (visitor 2 ∷ []) joined (omega arith)
      (refl, omega arith, omega arith, omega arith, tt, tt) refl)

-- And without one.
served-Reach : Reach world stray (client []) (config 0) (started 1) (served 0)
unfolding next_tick wait_events handle_next report_all dispatch deal deal_listen add_client
    extent_time init_conn retrieve_all init_ip lookup insert interest
served-Reach =
    next
      (next
        (next
          (next here (
            begins (λ i. 1) (calls ∷ []) (started 1) refl (omega arith) (λ i. omega arith) refl
              (inl refl, tt)))
          (handles 2 (visitor 2 ∷ []) (handled 0 2 (visitor 2 ∷ []) (turned 0 1 calls (started 1)))
            (omega arith) (refl, omega arith, omega arith, omega arith, tt, tt) refl))
        (begins (λ i. 3) (input ∷ []) (handled 0 2 (visitor 2 ∷ []) (turned 0 1 calls (started 1)))
          refl (omega arith) (λ i. omega arith) refl (inr refl, tt)))
      (handles 4 [] (served 0) (omega arith) tt refl)

Reach-IsSound_example : IsSound stray (config 1000) joined
Reach-IsSound_example =
    Reach-IsSound world stray (client []) (config 1000)
      (started-IsSound world stray (client []) (config 1000) 1 (omega arith)) joined-Reach

handle_next-Reach_example :
    Ensures
      (IsSound stray (config 1000))
      (handle_next stray (client []) (config 1000) 2 (visitor 2 ∷ []) asked)
unfolding lookup wait_events next_tick report_all tick_loop tick get_next_tick close_clients
handle_next-Reach_example =
    handle_next-Reach world stray (client []) (config 1000) 1 2 (visitor 2 ∷ []) (omega arith)
      asked-Reach (omega arith) (refl, omega arith, omega arith, omega arith, tt, tt)

-- The clock has gone on by two seconds.
next_tick-Reach_example :
    Ensures
      (λ u.
        IsSound stray (config 1000) u
        × (u.ready ≡ [])
        × AreWaiting stray (config 1000) 2000000000 u.timer)
      (next_tick stray (config 1000) (λ i. 2000000000) joined)
unfolding next_tick wait_events handle_next report_all dispatch deal_listen add_client close_clients
    init_conn retrieve_all init_ip swap_node siftup_loop siftup add tick_loop tick get_next_tick
    lookup insert
next_tick-Reach_example =
    next_tick-Reach world stray (client []) (config 1000) 1 (λ i. 2000000000) (omega arith)
      joined-Reach refl (omega arith) (λ i. omega arith)

Reach-IsExclusive_example : IsExclusive 5 (served 0)
Reach-IsExclusive_example =
    Reach-IsExclusive world stray (client []) (config 0) 5 refl (omega arith) 1 (omega arith)
      served-Reach
