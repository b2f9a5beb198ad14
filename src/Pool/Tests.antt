-- ===== src/Pool/Tests.antt =====
-- Runs of the connection pool, and its theorems at concrete inputs.
use video_server.Base.{ℕ, ◌≡◌, refl, true, false, List, [], ◌∷◌, arith}
use video_server.Base.Run.{ok, abort, ◌>>=◌}
use video_server.Pool.{
  SqlConnPool, init_pool, enters, passes, Reachable, start, next, get_conn, verify_conn, init,
  init_loop, close_pool,
}
use video_server.Pool.Steps.{Reachable-takes}

-- One thread before the semaphore, and one that has passed it.
abbrev busy : SqlConnPool
busy = record { queue = 7 ∷ 8 ∷ []; sem = 1; waiting = 1; taking = 1 }

busy-Reachable : Reachable (7 ∷ 8 ∷ []) false busy
busy-Reachable =
    next (next (next start (enters (omega arith))) (enters (omega arith)))
      (passes (omega arith) (omega arith))

Reachable-takes_example : (c : ℕ) × ((rest : List ℕ) × (busy.queue ≡ c ∷ rest))
Reachable-takes_example = Reachable-takes (7 ∷ 8 ∷ []) busy busy-Reachable (omega arith)

-- The first connection fails: the pool takes its null pointer, and the first login ends the program.
init_unconnected : init ((true, 0) ∷ (true, 8) ∷ []) >>= verify_conn ≡ abort
unfolding init init_loop verify_conn get_conn
init_unconnected = refl

-- A connection that `UserVerify` has used is closed twice.
closed_twice : verify_conn (init_pool (7 ∷ [])) >>= (λ p. ok (close_pool p).0) ≡ ok (7 ∷ 7 ∷ [])
unfolding verify_conn get_conn close_pool
closed_twice = refl
