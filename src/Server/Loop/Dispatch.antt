-- ===== src/Server/Loop/Dispatch.antt =====
-- The body of the `for` in `Start`, on every kind of event.
use video_server.Base.{ℕ, ◌≤◌, ◌≡◌, refl, inl, inr, List, [], ◌∷◌, arith, All, ◌==◌, Bool-cases}
use video_server.Base.Run.{Ensures, ensures}
use video_server.Conn.{ServerConn}
use video_server.Timer.Heap.{TimerNode}
use video_server.Server.Loop.{
  Config, Event, Accepted, WebServer, dispatch, handle_next, has, epoll_gone, epoll_in, epoll_out,
  reads, writes,
}
use video_server.Server.Loop.Accept.{IsServed, IsSound, AreAccepted, deal_listen-IsSound}
use video_server.Server.Loop.Round.{close_client-IsSound, deal-IsSound}

module _ (stray : TimerNode) (blank : ServerConn) (cfg : Config) where
  -- The body of the `for`, on an event that can be handled.
  pub dispatch-IsSound :
      (now : ℕ) (accepts : List Accepted) (e : Event) (s : WebServer)
      → IsSound stray cfg s
      → IsServed stray cfg s e.fd
      → s.clock ≤ now
      → AreAccepted s.users s.clock accepts
      → Ensures (IsSound stray cfg) (dispatch stray blank cfg now accepts e s)
  unfolding dispatch
  dispatch-IsSound now accepts e s v served later new = elim (Bool-cases (e.fd == cfg.listen_fd)) [
    | inl listens ↦ rw (listens, dispatch) (deal_listen-IsSound stray blank cfg accepts s v new)
    | inr client ↦ elim served [
      | inl same ↦ absurd (ground arith)
      | inr (k, t) ↦ elim (Bool-cases (has e.events epoll_gone)) [
        | inl gone ↦ rw (client, gone, dispatch) (close_client-IsSound stray cfg e.fd s v k)
        | inr stays ↦ elim (Bool-cases (has e.events epoll_in)) [
          | inl input ↦
              rw (client, stays, input, dispatch)
                (deal-IsSound stray cfg now e.fd (reads e.fd) s v k t later)
          | inr no_input ↦ elim (Bool-cases (has e.events epoll_out)) [
            | inl output ↦
                rw (client, stays, no_input, output, dispatch)
                  (deal-IsSound stray cfg now e.fd (writes e.fd) s v k t later)
            | inr neither ↦ rw (client, stays, no_input, neither, dispatch) (ensures v)
          ]
        ]
      ]
    ]
  ]

  pub IsSound-rest :
      (e : Event) (es : List Event) (s : WebServer)
      → IsSound stray cfg s
      → s.ready ≡ e ∷ es
      → IsServed stray cfg s e.fd × IsSound stray cfg (record s { ready = es })
  IsSound-rest e es s v at =
      let (now, later) : IsServed stray cfg s e.fd
          × All (λ e. IsServed stray cfg s (Event.fd e)) es =
        rw at at v.pending in
      (
        now,
        record {
          users = record {
            named = v.users.named;
            counted = v.users.counted;
            few = v.users.few;
            watched = v.users.watched;
          };
          timer = v.timer;
          timed = v.timed;
          pending = later;
        },
      )

  -- The next event of the last `Wait` is handled: no assertion fails, and the server stays sound.
  pub handle_next-IsSound :
      (now : ℕ) (accepts : List Accepted) (s : WebServer)
      → IsSound stray cfg s
      → s.clock ≤ now
      → AreAccepted s.users s.clock accepts
      → Ensures (IsSound stray cfg) (handle_next stray blank cfg now accepts s)
  unfolding handle_next
  handle_next-IsSound now accepts s v later new = next s.ready refl
    where
      next :
          (es : List Event)
          → s.ready ≡ es
          → Ensures (IsSound stray cfg) (handle_next stray blank cfg now accepts s)
      next [] e = rw (e, handle_next) (ensures v)
      next (first ∷ rest) e =
          let (served, kept) = IsSound-rest first rest s v e in
          rw (e, handle_next)
            (dispatch-IsSound now accepts first (record s { ready = rest }) kept served later new)
