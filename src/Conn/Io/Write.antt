-- ===== src/Conn/Io/Write.antt =====
-- `write` sends what the vectors point at, in order, whatever the kernel takes each time.
use mathlib.Core.List.{append_assoc}
use video_server.Base.{
  ℕ, zero, suc, ◌+◌, ◌≤◌, ◌<◌, ◌≡◌, refl, sym, ap, ◌∙◌, inl, inr, Bool, true, false, List, ◌++◌,
  arith, length, take, Bool-cases, length-drop, take-append-drop,
}
use video_server.Base.Run.{Ensures, ensures, Ensures-bind}
use video_server.Buffer.{Written, wrote}
use video_server.Conn.{ServerConn, to_write_bytes, greater_than}
use video_server.Conn.Io.{offered, Writing, goes_on, write_loop, write}
use video_server.Conn.Io.Ready.{IsReady, pending, offered-eq-pending, Kept}
use video_server.Conn.Io.Advance.{advance_takes}

-- `writev` takes some of the bytes that it is offered, none only where there are none, or fails with
-- an error number that `Fails` allows.
abbrev pub IsTaken : (ℕ → Type 0) → List ℕ → Written → Type 0
IsTaken Fails offer (wrote n) = (n ≤ length offer) × ((n ≡ 0) → (length offer ≡ 0))
IsTaken Fails offer (Written.failed e) = Fails e

-- Why the loop ended: an error, nothing left, or little left where the mode allows it.
abbrev pub HasEnded : (ℕ → Type 0) → Bool → ServerConn → Written → Type 0
HasEnded Fails is_et d (Written.failed e) = Fails e
HasEnded Fails is_et d (wrote zero) = length (pending d) ≡ 0
HasEnded Fails is_et d (wrote (suc n)) =
    (is_et ≡ false) × (greater_than (to_write_bytes d) 10240 ≡ false)

pub record IsSent (Fails : ℕ → Type 0) (is_et : Bool) (c : ServerConn) (w : Writing) : Type 0 where
  pub ready : IsReady w.conn
  pub kept : Kept c w.conn
  pub all : w.taken ++ pending w.conn ≡ pending c
  pub ended : HasEnded Fails is_et w.conn w.result

quiet :
    (Fails : ℕ → Type 0) (is_et : Bool) (d : ServerConn)
    → goes_on is_et d ≡ false
    → HasEnded Fails is_et d (wrote 1)
quiet Fails true d h = absurd (ground (arith, h))
quiet Fails false d h = (refl, h)

module _ (kernel : ℕ → List ℕ → Written) (Fails : ℕ → Type 0)
    (law : (round : ℕ) (offer : List ℕ) → IsTaken Fails offer (kernel round offer))
    (is_et : Bool) where
  -- The call sends what is pending within this fuel.
  abbrev Sends : ℕ → Type 0
  Sends fuel =
      (round : ℕ) (c : ServerConn)
      → IsReady c
      → length (pending c) < fuel
      → Ensures (IsSent Fails is_et c) (write_loop kernel is_et fuel round c)

  one_round :
      (fuel round : ℕ) (c : ServerConn)
      → Sends fuel
      → IsReady c
      → length (pending c) ≤ fuel
      → (w : Written) → kernel round (offered c) ≡ w
      → IsTaken Fails (pending c) w
      → Ensures (IsSent Fails is_et c) (write_loop kernel is_et (suc fuel) round c)
  unfolding write_loop
  one_round fuel round c rest v h (Written.failed e) call fits =
      rw (call, write_loop)
        (ensures (record { ready = v; kept = (refl, refl); all = refl; ended = fits }))
  one_round fuel round c rest v h (wrote zero) call fits =
      rw (call, write_loop)
        (ensures (record { ready = v; kept = (refl, refl); all = refl; ended = fits.1 refl }))
  one_round fuel round c rest v h (wrote (suc n)) call fits =
      let sent = advance_takes (suc n) c v (omega arith) fits.0 in
      let head : take (suc n) (offered c) ≡ take (suc n) (pending c) =
        ap (take (suc n)) (offered-eq-pending c v) in
      rw (call, write_loop)
        (Ensures-bind sent (λ (stopped, d) (continues, (ready, (kept, left))).
          let whole : take (suc n) (offered c) ++ pending d ≡ pending c =
            rw (head, left) (take-append-drop (suc n) (pending c)) in
          rw continues (elim (Bool-cases (goes_on is_et d)) [
            | inr ends ↦ rw ends (
                ensures (record {
                  ready = ready;
                  kept = kept;
                  all = whole;
                  ended = quiet Fails is_et d ends;
                }))
            | inl goes ↦ rw goes (
                Ensures-bind
                  (rest (suc round) d ready
                    (rw left (omega (arith, fits, length-drop (suc n) (pending c)))))
                  (λ w s. ensures (record {
                    ready = s.ready;
                    kept = (s.kept.0 ∙ kept.0, s.kept.1 ∙ kept.1);
                    all =
                        append_assoc (take (suc n) (offered c)) w.taken (pending w.conn)
                        ∙ ap (λ t. take (suc n) (offered c) ++ t) s.all
                        ∙ whole;
                    ended = s.ended;
                  })))
          ])))

  write_loop-Sends : (fuel : ℕ) → Sends fuel
  write_loop-Sends zero round c v h = absurd (omega arith)
  write_loop-Sends (suc fuel) round c v h =
      one_round fuel round c (write_loop-Sends fuel) v (omega arith) (kernel round (offered c)) refl
        (rw (sym (offered-eq-pending c v)) (law round (offered c)))

  -- `write` sends the bytes of the write buffer and then those of the file, each once and in order:
  -- what the kernel took, followed by what the vectors still point at, is what they pointed at before.
  -- The loop returns, and unless a call failed nothing is left, or with level
  -- triggers `ToWriteBytes` is at most 10240.
  -- The read buffer and the protocol stay as they are.
  -- The conditions: the vectors point at the readable part of the write buffer and into the file, and
  -- the kernel takes no more than it is offered, and nothing only of an empty offer.
  pub write_sends :
      (c : ServerConn) → IsReady c → Ensures (IsSent Fails is_et c) (write kernel is_et c)
  unfolding write
  write_sends c v =
      write_loop-Sends (length (offered c) + 1) 0 c v (rw (offered-eq-pending c v) (omega arith))
