-- ===== src/Server/Users.antt =====
-- `users_` of code/server/webserver.h: the connections by descriptor, as an association list.
use video_server.Base.{
  ℕ, ◌+◌, ◌≡◌, refl, Bool, true, false, not, List, [], ◌∷◌, Option, none, some, arith, ◌==◌,
  if◌then◌else◌,
}
use video_server.Conn.{ServerConn}

abbrev pub Users : Type 0
Users = List (ℕ × ServerConn)

unfoldable pub lookup : ℕ → Users → Option ServerConn
lookup fd [] = none
lookup fd ((k, c) ∷ m) = if k == fd then some c else lookup fd m

unfoldable pub insert : ℕ → ServerConn → Users → Users
insert fd c [] = (fd, c) ∷ []
insert fd c ((k, d) ∷ m) = if k == fd then (fd, c) ∷ m else (k, d) ∷ insert fd c m

pub lookup-insert :
    (fd j : ℕ) (c : ServerConn) (m : Users)
    → lookup j (insert fd c m) ≡ (if fd == j then some c else lookup j m)
unfolding lookup insert
lookup-insert fd j c [] = refl
lookup-insert fd j c (x ∷ m) = ground (arith, lookup-insert fd j c m)

abbrev pub is_some : Option ServerConn → Bool
is_some none = false
is_some (some c) = true

abbrev pub is_live : Option ServerConn → Bool
is_live none = false
is_live (some c) = not c.is_close

-- `users_.count(fd) > 0`
abbrev pub is_known : ℕ → Users → Bool
is_known fd m = is_some (lookup fd m)

-- The connection is there and is not closed.
abbrev pub is_open : ℕ → Users → Bool
is_open fd m = is_live (lookup fd m)

abbrev pub one_if : Bool → ℕ
one_if true = 1
one_if false = 0

-- How many connections are open.
unfoldable pub open_count : Users → ℕ
open_count [] = 0
open_count ((k, c) ∷ m) = one_if (not c.is_close) + open_count m

pub open_count-insert :
    (fd : ℕ) (c : ServerConn) (m : Users)
    → open_count (insert fd c m) + one_if (is_open fd m) ≡ open_count m + one_if (not c.is_close)
unfolding lookup insert open_count
open_count-insert fd c [] = ground arith
open_count-insert fd c (x ∷ m) = ground (arith, open_count-insert fd c m)
