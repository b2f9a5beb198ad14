-- ===== src/Server/Kept.antt =====
-- What the handlers of the workers leave of a connection, on every result of the kernel.
use video_server.Base.{
  ℕ, ◌-◌, ◌≡◌, refl, ◌∙◌, ◌⊎◌, inl, inr, Bool, true, false, List, if◌then◌else◌,
}
use video_server.Base.Run.{Yields, yields, Yields-bind, Yields-if}
use video_server.Buffer.{Readv, Written}
use video_server.Conn.{ServerConn, IsSame, close_conn_lem, to_write_bytes}
use video_server.Conn.Io.Same.{read-IsSame, write-IsSame}
use video_server.Conn.Process.{World}
use video_server.Conn.Process.Same.{process-IsSame}
use video_server.Server.{
  Armed, for_reading, for_writing, nothing, closed, Served, on_process, on_read, on_write,
  is_broken, is_zero_int, must_wait,
}

abbrev pub is_closed : Armed → Bool
is_closed closed = true
is_closed for_reading = false
is_closed for_writing = false
is_closed nothing = false

module _ (world : World) where
  open world use {sql}

  -- A handler closes the connection, and counts it out if it was open, or leaves both as they were.
  abbrev pub Keeps : ServerConn → ℕ → Served world → Type 0
  Keeps c users v =
      (v.conn.fd ≡ c.fd)
      × (((v.armed ≡ closed)
            × (v.conn.is_close ≡ true)
            × (v.user_count ≡ (if c.is_close then users else users - 1)))
          ⊎ ((is_closed v.armed ≡ false) × (v.conn.is_close ≡ c.is_close) × (v.user_count ≡ users)))

  armed_open : (more : Bool) → is_closed (if more then for_writing else for_reading) ≡ false
  armed_open true = refl
  armed_open false = refl

  armed_waits : (waits : Bool) → is_closed (if waits then for_writing else nothing) ≡ false
  armed_waits true = refl
  armed_waits false = refl

  on_process-Keeps :
      (c d : ServerConn) (users : ℕ) (db : sql.Database)
      → IsSame c d
      → Yields (Keeps c users) (on_process world d users db)
  unfolding on_process
  on_process-Keeps c d users db same =
      Yields-bind (process-IsSame world d db)
        λ p k. yields (k.0 ∙ same.0, inr (armed_open p.0, k.1 ∙ same.1, refl))

  pub on_read-Keeps :
      (is_et : Bool) (rs : List Readv) (c : ServerConn) (users : ℕ) (db : sql.Database)
      → Yields (Keeps c users) (on_read world is_et rs c users db)
  unfolding on_read
  on_read-Keeps is_et rs c users db = Yields-bind (read-IsSame is_et rs c) λ p k.
      let (own, shut, left) = close_conn_lem p.1 users in
      Yields-if (is_broken p.0) (yields (own ∙ k.0, inl (refl, shut, rw (← k.1) left)))
        (on_process-Keeps c p.1 users db k)

  pub on_write-Keeps :
      (kernel : ℕ → List ℕ → Written) (is_et : Bool) (c : ServerConn) (users : ℕ)
      (db : sql.Database)
      → Yields (Keeps c users) (on_write world kernel is_et c users db)
  unfolding on_write
  on_write-Keeps kernel is_et c users db = Yields-bind (write-IsSame kernel is_et c) λ w k.
      Yields-if (is_zero_int (to_write_bytes w.conn)) (on_process-Keeps c w.conn users db k)
        (yields (k.0, inr (armed_waits (must_wait w.result), k.1, refl)))
