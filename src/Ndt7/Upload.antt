-- ===== src/Ndt7/Upload.antt =====
-- ndt7/upload/sender/sender.go: the sender of the upload subtest, with its loop as in the download.
pub mod Progress
pub mod Rounds
pub mod Separate
use ndt_server.Common.{ℕ, List, [], ◌∷◌, ◌++◌, Option, none, some, String, Error}
use ndt_server.Ndt7.Loop.{Step, continue, return, run}
use ndt_server.Ndt7.Model.{Measurement, ArchivalData}

pub data Wire : Type 0 where
  json : Measurement → Wire
  ping closing : Wire

-- What the receive from `src` gives, with how the writes of the round would end.
pub data Turn : Type 0 where
  closed : Option Error → Turn
  measured : Measurement → Option Error → Option Error → Turn

pub record State : Type 0 where
  pub archival : ArchivalData
  pub wire : List Wire
  pub sender_errors : List String

abbrev send : Wire → State → State
send w s = record s { wire = s.wire ++ w ∷ [] }

abbrev count_error : String → State → State
count_error l s = record s { sender_errors = s.sender_errors ++ l ∷ [] }

abbrev save : Measurement → State → State
save m s = record s {
  archival = record (s.archival) { server_measurements = s.archival.server_measurements ++ m ∷ [] };
}

unfoldable pub start_closing : Option Error → State → State
start_closing none s = send closing s
start_closing (some e) s = s

unfoldable pub after_ticks : Option Error → State → Step State
after_ticks (some e) s = return (some e) (count_error "ping-send-ticks" s)
after_ticks none s = continue (send ping s)

unfoldable pub after_json : Measurement → Option Error → Option Error → State → Step State
unfolding after_ticks
after_json m (some e) ticks s = return (some e) (count_error "write-json" s)
after_json m none ticks s = after_ticks ticks (save m (send (json m) s))

-- One round of the loop.
unfoldable pub step : Turn → State → Step State
unfolding start_closing after_json
step (closed w) s = return none (count_error "measurer-closed" (start_closing w s))
step (measured m written ticks) s = after_json m written ticks s

abbrev pub initial : ArchivalData → State
initial d = record { archival = d; wire = []; sender_errors = [] }

abbrev pub begun : ℕ → State → State
begun t s = record s { archival = record (s.archival) { start_time = t } }

abbrev pub end_at : ℕ → Step State → Step State
end_at t (continue s) = continue s
end_at t (return e s) = return e (record s { archival = record (s.archival) { end_time = t } })

-- `Start`: `deadline` says how `SetWriteDeadline` ends, `begin` and `finish` what the clock shows
-- before the loop and on return.
unfoldable pub start : ℕ → ℕ → Option Error → List Turn → ArchivalData → Step State
start begin finish (some e) ts d = return (some e) (count_error "set-write-deadline" (initial d))
start begin finish none ts d = end_at finish (run step ts (begun begin (initial d)))
