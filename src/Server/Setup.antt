-- ===== src/Server/Setup.antt =====
-- `InitSocket_` of code/server/webserver.cpp: the set-up of the listening socket, as the calls that it
-- makes, and what `Start` and the destructor do with its result.
-- The results of the system calls are parameters.
mod Tests
use mathlib.Core.Path.{subst}
use video_server.Base.{
  ℕ, ◌+◌, ◌≡◌, refl, Bool, true, false, not, ◌&&◌, ◌||◌, List, [], ◌∷◌, ◌++◌, arith, ltb,
  if◌then◌else◌, Bool-cases, inl, inr,
}
use video_server.Base.Int.{ℤ, pos, negsuc, is_negative}
use video_server.Base.Run.{Run, ok, abort, ◌>>=◌, ◌>>◌, check}
use video_server.Server.Users.{one_if}

-- The calls, `SO_LINGER` with its two fields.
pub data SocketCall : Type 0 where
  opens : SocketCall
  sets_linger : ℕ → ℕ → SocketCall
  sets_reuse : SocketCall
  binds : ℤ → SocketCall
  listens : ℕ → SocketCall
  adds : SocketCall
  sets_nonblock : SocketCall
  closes : SocketCall

-- What the calls return.
pub record Kernel : Type 0 where
  pub socket : ℤ
  pub linger : ℤ
  pub reuse : ℤ
  pub bind : ℤ
  pub listen : ℤ
  pub added : Bool

-- `port_ > 65535 || port_ < 1024`
abbrev pub is_bad_port : ℤ → Bool
is_bad_port (pos n) = ltb 65535 n || ltb n 1024
is_bad_port (negsuc n) = true

-- `ret == -1`
abbrev pub is_minus_one : ℤ → Bool
is_minus_one (pos n) = false
is_minus_one (negsuc n) = ltb n 1

abbrev pub is_zero : ℤ → Bool
is_zero (pos n) = ltb n 1
is_zero (negsuc n) = false

-- A call after which the code goes on, or closes the socket and returns false.
abbrev pub then_go_on :
    SocketCall → Bool → Run (Bool × List SocketCall) → Run (Bool × List SocketCall)
then_go_on call failed rest =
    if failed then ok (false, call ∷ closes ∷ []) else rest >>= λ (b, calls). ok (b, call ∷ calls)

-- `SetFdNonblock` of the listening socket: its `assert(fd > 0)`, then the call.
abbrev pub set_fd_nonblock : ℤ → Run (Bool × List SocketCall)
set_fd_nonblock fd =
    check (not (is_negative fd) && not (is_zero fd)) >> ok (true, sets_nonblock ∷ [])

-- The calls on the open socket.
abbrev pub set_up : ℤ → Bool → Kernel → Run (Bool × List SocketCall)
set_up port open_linger k =
    let linger : ℕ = if open_linger then 1 else 0 in
    let nonblock = set_fd_nonblock k.socket in
    let registered = then_go_on adds (not k.added) nonblock in
    let listening = then_go_on (listens 6) (is_negative k.listen) registered in
    let bound = then_go_on (binds port) (is_negative k.bind) listening in
    let reused = then_go_on sets_reuse (is_minus_one k.reuse) bound in
    then_go_on (sets_linger linger linger) (is_negative k.linger) reused

-- `InitSocket_`: what it returns, and its calls in order.
pub init_socket : ℤ → Bool → Kernel → Run (Bool × List SocketCall)
init_socket port open_linger k =
    let opened : Run (Bool × List SocketCall) =
      if is_negative k.socket
      then ok (false, opens ∷ [])
      else set_up port open_linger k >>= λ (b, calls). ok (b, opens ∷ calls) in
    if is_bad_port port then ok (false, []) else opened

-- Every call has gone well, on a port that is allowed.
abbrev pub all_well : ℤ → Kernel → Bool
all_well port k =
    not (is_bad_port port)
    && (not (is_negative k.socket)
        && (not (is_negative k.linger)
            && (not (is_minus_one k.reuse)
                && (not (is_negative k.bind) && (not (is_negative k.listen) && k.added)))))

abbrev pub close_count : List SocketCall → ℕ
close_count [] = 0
close_count (closes ∷ calls) = 1 + close_count calls
close_count (opens ∷ calls) = close_count calls
close_count (sets_linger a b ∷ calls) = close_count calls
close_count (sets_reuse ∷ calls) = close_count calls
close_count (binds p ∷ calls) = close_count calls
close_count (listens n ∷ calls) = close_count calls
close_count (adds ∷ calls) = close_count calls
close_count (sets_nonblock ∷ calls) = close_count calls

-- The socket was opened.
abbrev pub has_opened : ℤ → Kernel → Bool
has_opened port k = not (is_bad_port port) && not (is_negative k.socket)

-- What is left to do with an open socket: an abort if all goes well on descriptor 0, or a result, with
-- the socket closed once if that is false.
abbrev Settles : (zero good : Bool) → Run (Bool × List SocketCall) → Type 0
Settles zero good m =
    (calls : List SocketCall) × ((m ≡ (if good && zero then abort else ok (good, calls)))
      × (close_count calls + one_if good ≡ 1))

then_go_on-Settles :
    (call : SocketCall) (failed zero good : Bool) (m : Run (Bool × List SocketCall))
    → ((calls : List SocketCall) → close_count (call ∷ calls) ≡ close_count calls)
    → Settles zero good m
    → Settles zero (not failed && good) (then_go_on call failed m)
then_go_on-Settles call true zero good m quiet s =
    (call ∷ closes ∷ [], (refl, omega (arith, quiet (closes ∷ []))))
then_go_on-Settles call false zero good m quiet (calls, (e, n)) = elim (Bool-cases (good && zero)) [
  | inl aborts ↦ (call ∷ calls, (rw (e, aborts) refl, omega (arith, n, quiet calls)))
  | inr goes ↦ (call ∷ calls, (rw (e, goes) refl, omega (arith, n, quiet calls)))
]

set_fd_nonblock-Settles :
    (fd : ℤ) → is_negative fd ≡ false → Settles (is_zero fd) true (set_fd_nonblock fd)
set_fd_nonblock-Settles fd h = elim (Bool-cases (is_zero fd)) [
  | inl z ↦ (sets_nonblock ∷ [], (rw (h, z) refl, refl))
  | inr p ↦ (sets_nonblock ∷ [], (rw (h, p) refl, refl))
]

set_up-Settles :
    (port : ℤ) (open_linger : Bool) (k : Kernel)
    → is_negative k.socket ≡ false
    → Settles
        (is_zero k.socket)
        (not (is_negative k.linger)
          && (not (is_minus_one k.reuse)
              && (not (is_negative k.bind) && (not (is_negative k.listen) && k.added))))
        (set_up port open_linger k >>= λ (b, calls). ok (b, opens ∷ calls))
set_up-Settles port open_linger k some_opened =
    let fd = k.socket in
    let nonblock = set_fd_nonblock-Settles fd some_opened in
    let added = then_go_on-Settles adds (not k.added) _ _ _ (λ c. refl) nonblock in
    let twice : (not (not k.added) && true) ≡ k.added = ground arith in
    let known =
      subst (λ b. Settles (is_zero fd) b (then_go_on adds (not k.added) (set_fd_nonblock fd))) twice
        added in
    let heard = then_go_on-Settles (listens 6) (is_negative k.listen) _ _ _ (λ c. refl) known in
    let bound = then_go_on-Settles (binds port) (is_negative k.bind) _ _ _ (λ c. refl) heard in
    let reused = then_go_on-Settles sets_reuse (is_minus_one k.reuse) _ _ _ (λ c. refl) bound in
    let lingered =
      then_go_on-Settles (sets_linger (if open_linger then 1 else 0) (if open_linger then 1 else 0))
        (is_negative k.linger) _ _ _ (λ c. refl) reused in
    then_go_on-Settles opens false _ _ _ (λ c. refl) lingered

-- `InitSocket_` returns true exactly if the port is in its range and every call goes well. A socket that
-- it opens is then kept, and in every other case closed once; with no socket opened none is closed. The
-- one other end is the failing assertion of `SetFdNonblock`, exactly if all goes well and the socket is
-- descriptor 0.
pub init_socket-closes :
    (port : ℤ) (open_linger : Bool) (k : Kernel)
    → (calls : List SocketCall) × ((init_socket port open_linger k
          ≡ (if all_well port k && is_zero k.socket then abort else ok (all_well port k, calls)))
        × (close_count calls + one_if (all_well port k) ≡ one_if (has_opened port k)))
unfolding init_socket
init_socket-closes port open_linger k = elim (Bool-cases (is_bad_port port)) [
  | inl bad ↦ ([], (rw bad refl, rw bad refl))
  | inr good ↦ elim (Bool-cases (is_negative k.socket)) [
    | inl none_opened ↦ (opens ∷ [], (rw (good, none_opened) refl, rw (good, none_opened) refl))
    | inr some_opened ↦
        let settled = rw some_opened at (set_up-Settles port open_linger k some_opened) in
        rw (good, some_opened) settled
  ]
]
