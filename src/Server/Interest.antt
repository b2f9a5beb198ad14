-- ===== src/Server/Interest.antt =====
-- code/server/epoller.cpp: the calls of `epoll_ctl` that the server makes, latest first, and what the
-- kernel documents of them: `EPOLL_CTL_ADD` fails on a descriptor that is there and `EPOLL_CTL_MOD` on
-- one that is not, and with `EPOLLONESHOT` a reported event disables the descriptor until the next
-- `EPOLL_CTL_MOD`.
use video_server.Base.{
  ℕ, ◌≡◌, refl, Bool, true, false, not, ◌&&◌, List, [], ◌∷◌, ◌==◌, arith, if◌then◌else◌,
}

-- `AddFd`, `ModFd` and `DelFd` of a connection, and an event of it that `Wait` returns.
pub data EpollCall : Type 0 where
  add_fd mod_fd del_fd reports : ℕ → EpollCall

-- Not in the interest list; disabled; enabled.
pub data Interest : Type 0 where
  absent spent enabled : Interest

abbrev pub is_registered : Interest → Bool
is_registered absent = false
is_registered spent = true
is_registered enabled = true

abbrev pub is_enabled : Interest → Bool
is_enabled enabled = true
is_enabled absent = false
is_enabled spent = false

abbrev pub on_add : Interest → Interest
on_add absent = enabled
on_add spent = spent
on_add enabled = enabled

abbrev pub on_mod : Interest → Interest
on_mod absent = absent
on_mod spent = enabled
on_mod enabled = enabled

abbrev pub on_report : Interest → Interest
on_report absent = absent
on_report spent = spent
on_report enabled = spent

unfoldable pub interest : ℕ → List EpollCall → Interest
interest fd [] = absent
interest fd (add_fd k ∷ calls) =
    let before = interest fd calls in if k == fd then on_add before else before
interest fd (mod_fd k ∷ calls) =
    let before = interest fd calls in if k == fd then on_mod before else before
interest fd (del_fd k ∷ calls) =
    let before = interest fd calls in if k == fd then absent else before
interest fd (reports k ∷ calls) =
    let before = interest fd calls in if k == fd then on_report before else before

-- Which descriptors are in the list, call by call.
module _ (fd j : ℕ) (calls : List EpollCall) where
  pub is_registered-add :
      is_registered (interest j (add_fd fd ∷ calls))
      ≡ (if fd == j then true else is_registered (interest j calls))
  unfolding interest
  is_registered-add = ground arith

  pub is_registered-mod :
      is_registered (interest j (mod_fd fd ∷ calls)) ≡ is_registered (interest j calls)
  unfolding interest
  is_registered-mod = ground arith

  pub is_registered-del :
      is_registered (interest j (del_fd fd ∷ calls))
      ≡ (if fd == j then false else is_registered (interest j calls))
  unfolding interest
  is_registered-del = ground arith

  pub is_registered-report :
      is_registered (interest j (reports fd ∷ calls)) ≡ is_registered (interest j calls)
  unfolding interest
  is_registered-report = ground arith

  -- Which are enabled, call by call.
  pub is_enabled-add : is_enabled (interest j (add_fd fd ∷ calls)) ≡ (
      if fd == j && not (is_registered (interest j calls))
      then true
      else is_enabled (interest j calls))
  unfolding interest
  is_enabled-add = ground arith

  pub is_enabled-mod :
      is_enabled (interest j (mod_fd fd ∷ calls))
      ≡ (if fd == j then is_registered (interest j calls) else is_enabled (interest j calls))
  unfolding interest
  is_enabled-mod = ground arith

  pub is_enabled-del :
      is_enabled (interest j (del_fd fd ∷ calls))
      ≡ (if fd == j then false else is_enabled (interest j calls))
  unfolding interest
  is_enabled-del = ground arith

  pub is_enabled-report :
      is_enabled (interest j (reports fd ∷ calls))
      ≡ (if fd == j then false else is_enabled (interest j calls))
  unfolding interest
  is_enabled-report = ground arith

pub is_registered_of_enabled : (i : Interest) → is_enabled i ≡ true → is_registered i ≡ true
is_registered_of_enabled absent e = cc
is_registered_of_enabled spent e = refl
is_registered_of_enabled enabled e = refl
