-- ===== src/Buffer/Runs.antt =====
-- code/buffer: sequences of calls on a buffer, and on a plain queue of bytes as their specification.
use video_server.Base.{ℕ, ◌+◌, ◌≤◌, ◌≡◌, refl, ap, ◌∙◌, List, [], ◌∷◌, ◌++◌, length, drop}
use video_server.Base.Run.{Run, ok, ◌>>=◌, Ensures, ensures, Ensures-bind}
use video_server.Buffer.{
  Buffer, retrieve, retrieve_until, retrieve_all, retrieve_all_to_str, append, append_buffer, Readv,
  received, read_fd, Written, wrote, write_fd,
}
use video_server.Buffer.Contents.{contents, IsValid}
use video_server.Buffer.Refine.{
  Holds, retrieve_drops, retrieve_until_drops, append_extends, append_buffer_extends,
  retrieve_all_to_str_drains, retrieve_all_empties, read_fd_extends, read_fd-failed, write_fd_drops,
  write_fd-failed,
}

-- The calls of a client; what the system calls deliver stands with theirs.
pub data Op : Type 0 where
  appends : List ℕ → Op
  adds : Buffer → Op
  takes : ℕ → Op
  takes_until : ℕ → Op
  clears : Op
  drains : Op
  reads : Readv → Op
  writes : Written → Op

-- What a call returns.
pub data Output : Type 0 where
  silent : Output
  said : List ℕ → Output
  read_back : Readv → Output

-- `takes_until` counts from `Peek()`.
pub step : Op → Buffer → Run (Output × Buffer)
step (appends xs) b = append xs b >>= λ b'. ok (silent, b')
step (adds src) b = append_buffer src b >>= λ b'. ok (silent, b')
step (takes n) b = retrieve n b >>= λ b'. ok (silent, b')
step (takes_until n) b = retrieve_until (b.read_pos + n) b >>= λ b'. ok (silent, b')
step clears b = ok (silent, retrieve_all b)
step drains b = ok (said (retrieve_all_to_str b).0, (retrieve_all_to_str b).1)
step (reads got) b = read_fd got b >>= λ r. ok (read_back r.0, r.1)
step (writes put) b = ok (silent, write_fd put b)

-- The same calls on the queue of bytes alone.
abbrev pub queue_step : Op → List ℕ → Output × List ℕ
queue_step (appends xs) q = (silent, q ++ xs)
queue_step (adds src) q = (silent, q ++ contents src)
queue_step (takes n) q = (silent, drop n q)
queue_step (takes_until n) q = (silent, drop n q)
queue_step clears q = (silent, [])
queue_step drains q = (said q, [])
queue_step (reads (received xs)) q = (read_back (received xs), q ++ xs)
queue_step (reads (Readv.failed e)) q = (read_back (Readv.failed e), q)
queue_step (writes (wrote n)) q = (silent, drop n q)
queue_step (writes (Written.failed e)) q = (silent, q)

-- No call takes more than is there.
abbrev pub Allowed : Op → List ℕ → Type 0
Allowed (takes n) q = n ≤ length q
Allowed (takes_until n) q = n ≤ length q
Allowed (writes (wrote n)) q = n ≤ length q
Allowed _ q = Unit {0}

abbrev pub AllAllowed : List Op → List ℕ → Type 0
AllAllowed [] q = Unit {0}
AllAllowed (o ∷ os) q = Allowed o q × AllAllowed os (queue_step o q).1

pub run : List Op → Buffer → Run (List Output × Buffer)
run [] b = ok ([], b)
run (o ∷ os) b = step o b >>= λ (out, b'). run os b' >>= λ (outs, b''). ok (out ∷ outs, b'')

abbrev pub queue_run : List Op → List ℕ → List Output × List ℕ
queue_run [] q = ([], q)
queue_run (o ∷ os) q =
    let (out, q') = queue_step o q in let (outs, q'') = queue_run os q' in (out ∷ outs, q'')

-- The same output, and the bytes of the queue.
abbrev pub Matches {ℓ} : {A : Type ℓ} → A × List ℕ → A × Buffer → Type ℓ
Matches want got = (got.0 ≡ want.0) × Holds want.1 got.1

silently :
    (q : List ℕ) (m : Run Buffer)
    → Ensures (Holds q) m
    → Ensures (Matches (silent, q)) (m >>= λ b'. ok (silent, b'))
silently q m h = Ensures-bind h (λ b k. ensures (refl, k))

step_refines :
    (o : Op) (b : Buffer)
    → IsValid b
    → Allowed o (contents b)
    → Ensures (Matches (queue_step o (contents b))) (step o b)
unfolding step
step_refines (appends xs) b v h = silently (contents b ++ xs) (append xs b) (append_extends xs b v)
step_refines (adds src) b v h =
    silently (contents b ++ contents src) (append_buffer src b) (append_buffer_extends src b v)
step_refines (takes n) b v h =
    silently (drop n (contents b)) (retrieve n b) (retrieve_drops n b v h)
step_refines (takes_until n) b v h =
    silently (drop n (contents b)) (retrieve_until (b.read_pos + n) b)
      (retrieve_until_drops n b v h)
step_refines clears b v h = ensures (refl, retrieve_all_empties b)
step_refines drains b v h = let k = retrieve_all_to_str_drains b in ensures (ap said k.0, k.1)
step_refines (reads (received xs)) b v h =
    Ensures-bind (read_fd_extends xs b v) λ r p. ensures (ap read_back p.0, p.1)
step_refines (reads (Readv.failed e)) b v h = rw (read_fd-failed e b) (ensures (refl, (v, refl)))
step_refines (writes (wrote n)) b v h = ensures (refl, write_fd_drops n b v h)
step_refines (writes (Written.failed e)) b v h = ensures (refl, rw (write_fd-failed e b) (v, refl))

-- From a valid buffer, any sequence of calls that never takes more than is there runs without a
-- failed assertion, returns what the same calls return on a plain queue of bytes, and leaves exactly
-- the bytes that they leave there.
pub run_refines :
    (os : List Op) (b : Buffer)
    → IsValid b
    → AllAllowed os (contents b)
    → Ensures (Matches (queue_run os (contents b))) (run os b)
unfolding run
run_refines [] b v h = ensures (refl, (v, refl))
run_refines (o ∷ os) b v h = Ensures-bind (step_refines o b v h.0) λ r s.
    Ensures-bind (run_refines os r.1 s.1.0 (rw s.1.1 h.1)) λ t u.
      let same = ap (queue_run os) s.1.1 in
      ensures (rw (s.0, u.0, same) refl, (u.1.0, u.1.1 ∙ ap (λ x. x.1) same))
