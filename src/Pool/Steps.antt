-- ===== src/Pool/Steps.antt =====
-- What holds of the pool after any steps of any threads, and of one call of `UserVerify`.
use video_server.Base.{
  ℕ, suc, some, ◌⊎◌, inl, inr, Bool, true, false, ◌&&◌, ◌∙◌, ◌==◌, lt→ltb, ◌+◌, ◌-◌, ◌<◌, ◌≡◌, refl,
  ap, List, [], ◌∷◌, ◌++◌, arith, length, length-append,
}
use mathlib.Core.List.{append-nil, append_assoc}
use video_server.Base.Run.{ok, abort}
use video_server.Pool.{
  SqlConnPool, Step, enters, passes, takes, frees, Reachable, start, next, closes, close_pool,
  init_pool, init_loop, init, get_conn, verify_conn,
}

-- A connection in the queue for each count of the semaphore and each thread that has passed it.
abbrev pub IsBalanced : SqlConnPool → Type 0
IsBalanced p = length p.queue ≡ p.sem + p.taking

Step-IsBalanced : (p q : SqlConnPool) → Step p q → IsBalanced p → IsBalanced q
Step-IsBalanced p q (enters h) b = b
Step-IsBalanced p q (passes h k) b = omega arith
Step-IsBalanced p q (takes c rest h e) b = omega (arith, ap length e)
Step-IsBalanced p q (frees c) b = omega (arith, length-append p.queue (c ∷ []))

-- However the threads' steps come between each other, until `ClosePool` is called the queue holds as many
-- connections as the semaphore counts and threads have passed it.
pub Reachable-IsBalanced :
    (conns : List ℕ) (closed : Bool) (p : SqlConnPool)
    → Reachable conns closed p
    → closed ≡ false
    → IsBalanced p
Reachable-IsBalanced conns closed p start open_yet = omega arith
Reachable-IsBalanced conns closed p (next {p = before} r s) open_yet =
    Step-IsBalanced before p s (Reachable-IsBalanced conns closed before r open_yet)
Reachable-IsBalanced conns closed p (closes r) open_yet = absurd (ground (arith, open_yet))

-- However the threads' steps come between each other, also with connections that are given back twice or
-- were never taken, until `ClosePool` is called a thread that has passed the semaphore finds a connection
-- in the queue: `front` and `pop` are not called on an empty one.
pub Reachable-takes :
    (conns : List ℕ) (p : SqlConnPool)
    → Reachable conns false p
    → 0 < p.taking
    → (c : ℕ) × ((rest : List ℕ) × (p.queue ≡ c ∷ rest))
Reachable-takes conns p r h = by_queue p.queue refl
  where
    by_queue : (q : List ℕ) → p.queue ≡ q → (c : ℕ) × ((rest : List ℕ) × (p.queue ≡ c ∷ rest))
    by_queue [] e = absurd (omega (arith, ap length e, Reachable-IsBalanced conns false p r refl))
    by_queue (c ∷ rest) e = (c, (rest, e))

-- `ClosePool` breaks this: a thread that has passed the semaphore before is left with an empty queue.
pub closes-strands :
    (conns : List ℕ) (closed : Bool) (p : SqlConnPool)
    → Reachable conns closed p
    → 0 < p.taking
    → (q : SqlConnPool) × (Reachable conns true q × ((q.queue ≡ []) × (0 < q.taking)))
unfolding close_pool
closes-strands conns closed p r h = ((close_pool p).1, (closes r, (refl, h)))

-- A connection at the front that is not null is taken.
get_conn-front :
    (p : SqlConnPool) (c : ℕ) (rest : List ℕ)
    → p.queue ≡ c ∷ rest
    → 0 < c
    → get_conn p ≡ (some c, record p { queue = rest; sem = p.sem - 1 })
unfolding get_conn
get_conn-front p c rest e there =
    let pointer : (c == 0) ≡ false = ground arith in rw (e, get_conn, pointer) refl

-- On a pool with a connection at its front, not null, that the semaphore counts, a call of `UserVerify`
-- leaves the connection that it used in the queue twice, and the semaphore counts one more than before.
pub verify_conn_duplicates :
    (p : SqlConnPool) (c : ℕ) (rest : List ℕ)
    → p.queue ≡ c ∷ rest
    → 0 < c
    → 0 < p.sem
    → verify_conn p ≡ ok (record p { queue = (rest ++ c ∷ []) ++ c ∷ []; sem = p.sem + 1 })
unfolding verify_conn
verify_conn_duplicates p c rest e there counted =
    let count : p.sem - 1 + 1 + 1 ≡ p.sem + 1 = omega arith in
    rw (get_conn-front p c rest e there, verify_conn)
      (ap (λ (n : ℕ). ok (record p { queue = (rest ++ c ∷ []) ++ c ∷ []; sem = n })) count)

-- The connections that MySQL returns, and whether every `mysql_init` works.
abbrev pub connections : List (Bool × ℕ) → List ℕ
connections [] = []
connections ((inited, sql) ∷ rest) = sql ∷ connections rest

abbrev pub all_inited : List (Bool × ℕ) → Bool
all_inited [] = true
all_inited ((inited, sql) ∷ rest) = inited && all_inited rest

init_loop-queue :
    (answers : List (Bool × ℕ)) (queue : List ℕ)
    → all_inited answers ≡ true
    → init_loop answers queue ≡ ok (queue ++ connections answers)
unfolding init_loop
init_loop-queue [] queue h = rw (append-nil queue) refl
init_loop-queue ((true, sql) ∷ rest) queue h =
    init_loop-queue rest (queue ++ sql ∷ []) h
    ∙ ap ok (append_assoc queue (sql ∷ []) (connections rest))
init_loop-queue ((false, sql) ∷ rest) queue h = cc

length-connections : (answers : List (Bool × ℕ)) → length (connections answers) ≡ length answers
length-connections [] = refl
length-connections (x ∷ rest) = ap suc (length-connections rest)

-- `Init` of at least one connection, where every `mysql_init` works, puts all that
-- `mysql_real_connect` returns into the queue, null pointers too, in order, and the semaphore counts
-- them: it is the pool that the steps start from.
pub init-eq-init_pool :
    (answers : List (Bool × ℕ))
    → 0 < length answers
    → all_inited answers ≡ true
    → init answers ≡ ok (init_pool (connections answers))
unfolding init
init-eq-init_pool answers some_answers good =
    let positive = lt→ltb 0 (length answers) some_answers in
    rw (positive, init_loop-queue answers [] good, length-connections answers) refl

-- A pool whose first connection failed ends the first call of `UserVerify` in its assertion, and so does
-- a pool without connections.
pub verify_conn-abort :
    (p : SqlConnPool) (rest : List ℕ)
    → (p.queue ≡ []) ⊎ (p.queue ≡ 0 ∷ rest)
    → verify_conn p ≡ abort
unfolding verify_conn get_conn
verify_conn-abort p rest (inl e) = rw (e, get_conn) refl
verify_conn-abort p rest (inr e) = rw (e, get_conn) refl
