-- ===== src/Conn/Io/Same.antt =====
-- `read` and `write` leave the descriptor, and whether the connection is closed.
use video_server.Base.{
  ℕ, zero, suc, ◌+◌, ◌≡◌, refl, ◌∙◌, Bool, not, ◌||◌, List, ltb, ◌==◌, inl, inr, Bool-cases,
}
use video_server.Base.Run.{Yields, yields, runs_out, Yields-any, Yields-bind, Yields-either}
use video_server.Buffer.{Readv, Written, wrote, retrieve}
use video_server.Conn.{ServerConn, IsSame}
use video_server.Conn.Io.{Writing, read_loop, read, offered, advance, goes_on, write_loop, write}

pub read-IsSame :
    (is_et : Bool) (rs : List Readv) (c : ServerConn) → Yields (λ p. IsSame c p.1) (read is_et rs c)
unfolding read
read-IsSame is_et rs c =
    Yields-bind (Yields-any (read_loop is_et rs c.read_buff) (λ p. tt))
      λ p (_ : Unit {0}). yields (refl, refl)

advance-IsSame : (len : ℕ) (c : ServerConn) → Yields (λ p. IsSame c p.1) (advance len c)
unfolding advance
advance-IsSame len c = elim (Bool-cases (c.iov0.len + c.iov1.len == 0)) [
  | inl end ↦ rw end (yields (refl, refl))
  | inr more ↦ elim (Bool-cases (ltb c.iov0.len len)) [
    | inl over ↦ elim (Bool-cases (c.iov0.len == 0)) [
      | inl first_sent ↦ rw (more, over, first_sent) (yields (refl, refl))
      | inr first_left ↦ rw (more, over, first_left) (yields (refl, refl))
    ]
    | inr inside ↦
        rw (more, inside)
          (Yields-bind (Yields-any (retrieve len c.write_buff) (λ b. tt))
            λ b (_ : Unit {0}). yields (refl, refl))
  ]
]

write_loop-IsSame :
    (kernel : ℕ → List ℕ → Written) (is_et : Bool) (fuel round : ℕ) (c d : ServerConn)
    → IsSame c d
    → Yields (λ w. IsSame c (Writing.conn w)) (write_loop kernel is_et fuel round d)
unfolding write_loop
write_loop-IsSame kernel is_et zero round c d same = runs_out
write_loop-IsSame kernel is_et (suc fuel) round c d same =
    sent (write_loop-IsSame kernel is_et fuel (suc round) c) (kernel round (offered d)) refl
  where
    sent :
        ((d' : ServerConn)
          → IsSame c d'
          → Yields (λ w. IsSame c (Writing.conn w)) (write_loop kernel is_et fuel (suc round) d'))
        → (r : Written) → kernel round (offered d) ≡ r
        → Yields (λ w. IsSame c (Writing.conn w)) (write_loop kernel is_et (suc fuel) round d)
    sent rest (Written.failed e) at = rw (at, write_loop) (yields same)
    sent rest (wrote zero) at = rw (at, write_loop) (yields same)
    sent rest (wrote (suc n)) at =
        rw (at, write_loop)
          (Yields-bind (advance-IsSame (suc n) d) λ p q.
            let now : IsSame c p.1 = (q.0 ∙ same.0, q.1 ∙ same.1) in
            Yields-either (p.0 || not (goes_on is_et p.1)) (yields now)
              (Yields-bind (rest p.1 now) λ w k. yields k))

pub write-IsSame :
    (kernel : ℕ → List ℕ → Written) (is_et : Bool) (c : ServerConn)
    → Yields (λ w. IsSame c (Writing.conn w)) (write kernel is_et c)
unfolding write
write-IsSame kernel is_et c = write_loop-IsSame kernel is_et _ 0 c c (refl, refl)
