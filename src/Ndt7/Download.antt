-- ===== src/Ndt7/Download.antt =====
-- ndt7/download/sender/sender.go: the sender of the download subtest. Each round of its loop is a
-- turn of a script, which says what the `select` finds and how the writes of that round end.
pub mod Rule
pub mod Scaling
pub mod Record
pub mod Closing
pub mod Separate
pub mod Sampled
pub mod Rounds
use ndt_server.Common.{
  ℕ, ◌+◌, ◌*◌, ◌/◌, ◌^◌, Bool, true, false, ◌&&◌, List, [], ◌∷◌, ◌++◌, Option, none, some, String,
  Error, ltb, leb, leb_ℤ, if◌then◌else◌,
}
use ndt_server.Ndt7.Loop.{Step, continue, return, run}
use ndt_server.Ndt7.Model.{Measurement, TcpSample, ArchivalData, Params}
use ndt_server.Ndt7.Spec.{max_scaled_message_size, scaling_fraction}

-- A message that the client gets: random bytes, a measurement, a ping or the closing message.
pub data Wire : Type 0 where
  bulk : ℕ → Wire
  json : Measurement → Wire
  ping : Wire
  closing : Wire

-- `src` has a measurement, with how `WriteJSON`, `SendTicks` and the closing write would end.
pub record Measured : Type 0 where
  pub measurement : Measurement
  pub write_json : Option Error
  pub send_ticks : Option Error
  pub write_close : Option Error

pub data Turn : Type 0 where
  -- `src` is closed; how the closing write ends.
  closed : Option Error → Turn
  measured : Measured → Turn
  -- Nothing is ready; how `WritePreparedMessage` and `makePreparedMessage` would end.
  idle : Option Error → Option Error → Turn

pub record State : Type 0 where
  pub archival : ArchivalData
  pub bulk_message_size : ℕ
  pub total_sent : ℕ
  pub wire : List Wire
  pub sender_errors : List String

abbrev pub send : Wire → State → State
send w s = record s { wire = s.wire ++ w ∷ [] }

abbrev count_error : String → State → State
count_error l s = record s { sender_errors = s.sender_errors ++ l ∷ [] }

abbrev save : Measurement → State → State
save m s = record s {
  archival = record (s.archival) { server_measurements = s.archival.server_measurements ++ m ∷ [] };
}

abbrev pub filled : State → State
filled s = record (send (bulk s.bulk_message_size) s) {
  total_sent = s.total_sent + s.bulk_message_size;
}

abbrev pub doubled : State → State
doubled s = record s { bulk_message_size = s.bulk_message_size * 2 }

abbrev pub begun : ℕ → State → State
begun t s = record s { archival = record (s.archival) { start_time = t } }

abbrev ended : ℕ → State → State
ended t s = record s { archival = record (s.archival) { end_time = t } }

-- `closer.StartClosing` (ndt7/closer/closer.go): a write that fails is only logged.
unfoldable pub start_closing : Option Error → State → State
start_closing none s = send closing s
start_closing (some e) s = s

-- `params.IsEarlyExit && m.TCPInfo != nil && m.TCPInfo.BytesAcked >= params.MaxBytes`.
unfoldable pub enough_acked : Params → Option TcpSample → Bool
enough_acked p none = false
enough_acked p (some t) = p.is_early_exit && leb_ℤ p.max_bytes t.linux_tcp_info.bytes_acked

unfoldable pub after_ticks : Params → Measured → Option Error → State → Step State
after_ticks p t (some e) s = return (some e) (count_error "ping-send-ticks" s)
after_ticks p t none s =
    let s' = send ping s in
    if enough_acked p t.measurement.tcp_info
    then return none (count_error "measurer-closed-early" (start_closing t.write_close s'))
    else continue s'

unfoldable pub after_json : Params → Measured → Option Error → State → Step State
after_json p t (some e) s = return (some e) (count_error "write-json" s)
after_json p t none s =
    after_ticks p t t.send_ticks (save t.measurement (send (json t.measurement) s))

unfoldable pub after_scale : Option Error → State → Step State
after_scale (some e) s = return (some e) (count_error "make-prepared-message" s)
after_scale none s = continue s

unfoldable pub after_bulk : Option Error → Option Error → State → Step State
after_bulk (some e) prepared s = return (some e) (count_error "write-prepared-message" s)
after_bulk none prepared s =
    let s' = filled s in
    if leb max_scaled_message_size s'.bulk_message_size
    then continue s'
    else if ltb (s'.total_sent / scaling_fraction) s'.bulk_message_size
    then continue s'
    else after_scale prepared (doubled s')

-- One round of the loop.
unfoldable pub step : Params → Turn → State → Step State
step p (closed w) s = return none (count_error "measurer-closed" (start_closing w s))
step p (measured t) s = after_json p t t.write_json s
step p (idle written prepared) s = after_bulk written prepared s

-- The loop over a script; at its end the loop is still running.
abbrev pub loop : Params → List Turn → State → Step State
loop p = run (step p)

abbrev pub initial_message_size : ℕ
initial_message_size = 2 ^ 13

abbrev pub initial : ArchivalData → State
initial d = record {
  archival = d;
  bulk_message_size = initial_message_size;
  total_sent = 0;
  wire = [];
  sender_errors = [];
}

abbrev pub end_at : ℕ → Step State → Step State
end_at t (continue s) = continue s
end_at t (return e s) = return e (ended t s)

start_at : Params → ℕ → ℕ → Option Error → List Turn → State → Step State
start_at p begin finish (some e) ts s = return (some e) (count_error "set-write-deadline" s)
start_at p begin finish none ts s = end_at finish (loop p ts (begun begin s))

-- `Start`: `prepared` and `deadline` say how the first `makePreparedMessage` and
-- `SetWriteDeadline` end, `begin` and `finish` what the clock shows before the loop and on return.
unfoldable pub start :
    Params → ℕ → ℕ → Option Error → Option Error → List Turn → ArchivalData → Step State
unfolding start_at
start p begin finish (some e) deadline ts d =
    return (some e) (count_error "make-prepared-message" (initial d))
start p begin finish none deadline ts d = start_at p begin finish deadline ts (initial d)
