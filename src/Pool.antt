-- ===== src/Pool.antt =====
-- code/pool/sqlconnpool.h, sqlconnpool.cpp and sqlconnRAII.h: the pool of database connections.
-- `GetConn` is three steps for other threads to come between: the test of the queue, `sem_wait`, and
-- the part under the mutex; `FreeConn` is one step under the mutex. A connection is a number, and the
-- null pointer, which `Init` takes from a connection that fails, is 0.
pub mod Steps
mod Tests
use video_server.Base.{
  true, false, ℕ, zero, suc, ◌+◌, ◌-◌, ◌≤◌, ◌<◌, ◌≡◌, List, [], ◌∷◌, ◌++◌, Option, none, some,
  length, Bool, ltb, ◌==◌, if◌then◌else◌,
}
use video_server.Base.Run.{Run, ok, ◌>>=◌, ◌>>◌, check}

pub record SqlConnPool : Type 0 where
  pub queue : List ℕ
  pub sem : ℕ
  -- Threads in `GetConn` before `sem_wait`, and after it.
  pub waiting : ℕ
  pub taking : ℕ

-- The pool with these connections.
abbrev pub init_pool : List ℕ → SqlConnPool
init_pool conns = record { queue = conns; sem = length conns; waiting = 0; taking = 0 }

-- The loop of `Init`: whether `mysql_init` works, and what `mysql_real_connect` returns.
pub init_loop : List (Bool × ℕ) → List ℕ → Run (List ℕ)
init_loop [] queue = ok queue
init_loop ((inited, sql) ∷ rest) queue = check inited >> init_loop rest (queue ++ sql ∷ [])

-- `Init`, with the answers of MySQL for each of its connections.
pub init : List (Bool × ℕ) → Run SqlConnPool
init answers =
    check (ltb 0 (length answers))
    >> (init_loop answers [] >>= λ queue. ok (record (init_pool queue) { sem = length answers }))

-- `ClosePool`: the connections that it closes, in order. The semaphore keeps its count.
pub close_pool : SqlConnPool → List ℕ × SqlConnPool
close_pool p = (p.queue, record p { queue = [] })

-- `GetFreeConnCount`
pub get_free_conn_count : SqlConnPool → ℕ
get_free_conn_count p = length p.queue

-- `FreeConn`
abbrev pub free_conn : ℕ → SqlConnPool → SqlConnPool
free_conn c p = record p { queue = p.queue ++ c ∷ []; sem = p.sem + 1 }

-- The steps that the threads take in `GetConn` and `FreeConn`.
pub data Step (p : SqlConnPool) : SqlConnPool → Type 0 where
  enters : 0 < length p.queue → Step p (record p { waiting = p.waiting + 1 })
  passes :
      0 < p.waiting
      → 0 < p.sem
      → Step p (record p { waiting = p.waiting - 1; sem = p.sem - 1; taking = p.taking + 1 })
  takes :
      (c : ℕ) (rest : List ℕ)
      → 0 < p.taking
      → p.queue ≡ c ∷ rest
      → Step p (record p { queue = rest; taking = p.taking - 1 })
  frees : (c : ℕ) → Step p (free_conn c p)

-- The pool after any steps of the threads, with calls of `ClosePool` at any time: the flag tells whether
-- there has been one.
pub data Reachable (conns : List ℕ) : Bool → SqlConnPool → Type 0 where
  start : Reachable conns false (init_pool conns)
  next :
      {closed : Bool} {p q : SqlConnPool}
      → Reachable conns closed p
      → Step p q
      → Reachable conns closed q
  closes :
      {closed : Bool} {p : SqlConnPool}
      → Reachable conns closed p
      → Reachable conns true (close_pool p).1

abbrev pub as_pointer : ℕ → Option ℕ
as_pointer c = if c == 0 then none else some c

-- `GetConn` where no other thread comes between; with the queue and the count in step it does not
-- wait.
pub get_conn : SqlConnPool → Option ℕ × SqlConnPool
get_conn p = elim p.queue [
  | [] ↦ (none, p)
  | c ∷ rest ↦ (as_pointer c, record p { queue = rest; sem = p.sem - 1 })
]

-- The destructor of `SqlConnRAII`
abbrev pub release : Option ℕ → SqlConnPool → SqlConnPool
release none p = p
release (some c) p = free_conn c p

-- `assert(sql)`, and the `FreeConn(sql)` at the end of `UserVerify`.
abbrev pub use_conn : Option ℕ → SqlConnPool → Run SqlConnPool
use_conn none p = Run.abort
use_conn (some c) p = ok (free_conn c p)

-- What `UserVerify` does with the pool: `SqlConnRAII(&sql, …)` is a temporary, destroyed at the end of
-- its statement, before `sql` is used. It aborts at `assert(sql)` without a connection.
pub verify_conn : SqlConnPool → Run SqlConnPool
verify_conn p = let (sql, p1) = get_conn p in use_conn sql (release sql p1)
