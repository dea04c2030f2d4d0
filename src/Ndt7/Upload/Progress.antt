-- ===== src/Ndt7/Upload/Progress.antt =====
-- What the upload sender sends and records while the writes succeed, and how it stops.
use ndt_server.Common.{
  ℕ, ◌≡◌, List, [], ◌∷◌, ◌++◌, map, Option, some, none, Error, append_assoc, append-nil, ◌∙◌,
}
use ndt_server.Ndt7.Loop.{continue, return, run, run-append}
use ndt_server.Ndt7.Model.{Measurement, ArchivalData}
use ndt_server.Ndt7.Upload.{
  Wire, json, ping, closing, Turn, closed, measured, State, step, start, send, save,
}

abbrev pub good : Measurement → Turn
good m = measured m none none

-- Each measurement is followed by a ping.
abbrev pub with_pings : List Measurement → List Wire
with_pings [] = []
with_pings (m ∷ ms) = json m ∷ ping ∷ with_pings ms

abbrev pub recorded : ArchivalData → List Measurement → ℕ → ℕ → ArchivalData
recorded d ms b e = record d {
  server_measurements = d.server_measurements ++ ms;
  start_time = b;
  end_time = e;
}

abbrev progressed : List Measurement → State → State
progressed ms s = record s {
  archival = record (s.archival) { server_measurements = s.archival.server_measurements ++ ms };
  wire = s.wire ++ with_pings ms;
}

run-good :
    (ms : List Measurement) (s : State) → run step (map good ms) s ≡ continue (progressed ms s)
unfolding run step
run-good [] s = rw (append-nil s.archival.server_measurements, append-nil s.wire)
run-good (m ∷ ms) s =
    run-good ms (send ping (save m (send (json m) s)))
    ∙ rw (
      append_assoc s.archival.server_measurements (m ∷ []) ms,
      append_assoc (s.wire ++ json m ∷ []) (ping ∷ []) (with_pings ms),
      append_assoc s.wire (json m ∷ []) (ping ∷ with_pings ms),
    )

-- When all writes succeed until the measurer terminates, the sender returns without error; the client
-- has got each measurement in order, each with a ping, and then the closing message; exactly these
-- measurements are recorded, with the times of the beginning and the end; and what would come after
-- is not read.
pub start_complete :
    (ms : List Measurement) (begin finish : ℕ) (us : List Turn) (d : ArchivalData)
    → start begin finish none (map good ms ++ closed none ∷ us) d
      ≡ return none (record {
        archival = recorded d ms begin finish;
        wire = with_pings ms ++ closing ∷ [];
        sender_errors = "measurer-closed" ∷ [];
      })
unfolding start run step
start_complete ms begin finish us d =
    rw (run-append step (map good ms) (closed none ∷ us), run-good ms)

-- If the write of a measurement fails, the sender returns that error at once: the measurement is not
-- recorded, no closing message is sent, and the error is counted.
pub start_write_fails :
    (ms : List Measurement) (m : Measurement) (e : Error) (ticks : Option Error) (begin finish : ℕ)
    (us : List Turn) (d : ArchivalData)
    → start begin finish none (map good ms ++ measured m (some e) ticks ∷ us) d
      ≡ return (some e) (record {
        archival = recorded d ms begin finish;
        wire = with_pings ms;
        sender_errors = "write-json" ∷ [];
      })
unfolding start run step
start_write_fails ms m e ticks begin finish us d =
    rw (run-append step (map good ms) (measured m (some e) ticks ∷ us), run-good ms)
