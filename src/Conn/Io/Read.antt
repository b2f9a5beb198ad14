-- ===== src/Conn/Io/Read.antt =====
-- `read` with edge triggers: the socket is emptied into the read buffer.
use mathlib.Core.List.{append-nil, append_assoc}
use video_server.Base.{
  ℕ, ◌<◌, ◌≡◌, refl, ap, ◌∙◌, true, false, List, [], ◌∷◌, ◌++◌, arith, length, ◌==◌,
}
use video_server.Base.Run.{Ensures, ensures, Ensures-bind, Ensures-weaken}
use video_server.Buffer.{Buffer, Readv, received}
use video_server.Buffer.Contents.{contents, IsValid}
use video_server.Buffer.Refine.{Holds, read_fd-failed, read_fd_extends}
use video_server.Conn.{ServerConn}
use video_server.Conn.Io.{is_stop, read_loop, read}

-- The calls that fill the buffer, and then the rest.
abbrev pub fills : List (List ℕ) → List Readv → List Readv
fills [] rest = rest
fills (got ∷ chunks) rest = received got ∷ fills chunks rest

abbrev pub all_bytes : List (List ℕ) → List ℕ
all_bytes [] = []
all_bytes (got ∷ chunks) = got ++ all_bytes chunks

abbrev pub AllFilled : List (List ℕ) → Type 0
AllFilled [] = Unit
AllFilled (got ∷ chunks) = (0 < length got) × AllFilled chunks

append-empty : (xs ys : List ℕ) → (length ys == 0) ≡ true → xs ++ ys ≡ xs
append-empty xs [] h = append-nil xs
append-empty xs (y ∷ ys) h = absurd (ground arith)

last_read :
    (last : Readv) (rest : List Readv) (b : Buffer)
    → is_stop last ≡ true
    → IsValid b
    → Ensures (λ r. (r.0 ≡ last) × Holds (contents b) r.1) (read_loop true (last ∷ rest) b)
unfolding read_loop
last_read (Readv.failed e) rest b stop v = rw (read_fd-failed e b) (ensures (refl, (v, refl)))
last_read (received got) rest b stop v = Ensures-bind (read_fd_extends got b v) (λ p k.
    let stops : is_stop p.0 ≡ true = rw k.0 stop in
    rw stops (ensures (k.0, (k.1.0, k.1.1 ∙ append-empty (contents b) got stop))))

read_loop_collects :
    (chunks : List (List ℕ)) (last : Readv) (rest : List Readv) (b : Buffer)
    → AllFilled chunks
    → is_stop last ≡ true
    → IsValid b
    → Ensures
        (λ r. (r.0 ≡ last) × Holds (contents b ++ all_bytes chunks) r.1)
        (read_loop true (fills chunks (last ∷ rest)) b)
unfolding read_loop
read_loop_collects [] last rest b filled stop v =
    rw (append-nil (contents b)) (last_read last rest b stop v)
read_loop_collects (got ∷ chunks) last rest b (some_bytes, filled) stop v =
    let more : (length got == 0) ≡ false = ground arith in
    Ensures-bind (read_fd_extends got b v) (λ (r, b') (same, (valid, holds)).
      rw (same, more)
        (Ensures-weaken (read_loop_collects chunks last rest b' filled stop valid)
          (λ p (result, (kept, all)). (
            result,
            (
              kept,
              all
                  ∙ ap (λ t. t ++ all_bytes chunks) holds
                  ∙ append_assoc (contents b) got (all_bytes chunks),
            ),
          ))))

-- The read buffer alone changes.
pub read_collects_into :
    (chunks : List (List ℕ)) (last : Readv) (rest : List Readv) (c : ServerConn)
    → AllFilled chunks
    → is_stop last ≡ true
    → IsValid c.read_buff
    → Ensures
        (λ r.
          (r.0 ≡ last)
          × ((b : Buffer) × ((r.1 ≡ record c { read_buff = b })
                × Holds (contents c.read_buff ++ all_bytes chunks) b)))
        (read true (fills chunks (last ∷ rest)) c)
unfolding read
read_collects_into chunks last rest c filled stop v =
    Ensures-bind (read_loop_collects chunks last rest c.read_buff filled stop v)
      (λ p (result, kept). ensures (result, (p.1, (refl, kept))))

-- `read` with edge triggers calls `readv` until it delivers nothing or fails, reports that last result,
-- and leaves behind the bytes that were readable before exactly those of all calls, in order.
-- The conditions are a valid read buffer and calls that each deliver bytes before the last one.
pub read_collects :
    (chunks : List (List ℕ)) (last : Readv) (rest : List Readv) (c : ServerConn)
    → AllFilled chunks
    → is_stop last ≡ true
    → IsValid c.read_buff
    → Ensures
        (λ r. (r.0 ≡ last) × Holds (contents c.read_buff ++ all_bytes chunks) r.1.read_buff)
        (read true (fills chunks (last ∷ rest)) c)
read_collects chunks last rest c filled stop v =
    Ensures-weaken (read_collects_into chunks last rest c filled stop v)
      (λ r (result, (b, (same, kept))). (result, rw same kept))
