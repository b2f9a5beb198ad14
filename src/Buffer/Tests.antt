-- ===== src/Buffer/Tests.antt =====
-- Runs of the buffer, and its theorems at concrete inputs.
use video_server.Base.{List, ◌≡◌, refl, [], ◌∷◌, arith}
use video_server.Base.Run.{ok, Ensures}
use video_server.Buffer.{
  Buffer, Readv, received, wrote, append, ensure_writeable, make_space, has_written,
}
use video_server.Buffer.Contents.{IsValid}
use video_server.Buffer.Runs.{
  Op, appends, adds, takes_until, drains, reads, writes, silent, said, read_back, Matches, run,
  run_refines,
}

-- Four bytes of room, two of them read, one still to read.
abbrev used : Buffer
used = record { bytes = 1 ∷ 2 ∷ 3 ∷ 0 ∷ []; read_pos = 2; write_pos = 3 }

used-IsValid : IsValid used
used-IsValid = omega arith

-- The vector is packed before it is grown.
append_packs :
    append (4 ∷ 5 ∷ []) used
    ≡ ok (record { bytes = 3 ∷ 4 ∷ 5 ∷ 0 ∷ []; read_pos = 0; write_pos = 3 })
unfolding append ensure_writeable make_space has_written
append_packs = refl

abbrev calls : List Op
calls =
    appends (4 ∷ 5 ∷ [])
    ∷ takes_until 2
    ∷ reads (received (6 ∷ []))
    ∷ adds used
    ∷ reads (Readv.failed 11)
    ∷ writes (wrote 1)
    ∷ drains
    ∷ []

run_refines_example :
    Ensures
      (Matches (
        silent
            ∷ silent
            ∷ read_back (received (6 ∷ []))
            ∷ silent
            ∷ read_back (Readv.failed 11)
            ∷ silent
            ∷ said (6 ∷ 3 ∷ [])
            ∷ [],
        [],
      ))
      (run calls used)
run_refines_example = run_refines calls used used-IsValid (omega arith)
