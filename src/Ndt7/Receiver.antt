-- ===== src/Ndt7/Receiver.antt =====
-- ndt7/receiver/receiver.go: the receiver of both subtests. Each round of its loop is an arrival of a
-- script. `decode` stands for `json.Unmarshal` into a `Measurement`, which is not part of the program.
pub mod Messages
pub mod Rounds
use ndt_server.Common.{
  ℕ, List, [], ◌∷◌, ◌++◌, Option, none, some, String, Bytes, Error, Result, ok, err, ℤ,
}
use ndt_server.Ndt7.Loop.{Step, continue, return, run}
use ndt_server.Ndt7.Model.{Measurement, ArchivalData}

pub data ReceiverKind : Type 0 where
  download_receiver upload_receiver : ReceiverKind

-- What a round meets: the context has expired when it is tested, `NextReader` fails, or it gives a
-- binary message, or a text message, which `ReadAll` reads or fails to. A pong is handled inside of `NextReader`,
-- or of `ReadAll`, with what `ParseTicks` gives for it; if it is not the last thing that happens there, it is a round
-- of its own here.
pub data Arrival : Type 0 where
  expired : Arrival
  unreadable : Error → Arrival
  binary : Arrival
  text : Result Bytes → Arrival
  pong : Result ℤ → Arrival
  pong_in_text : Error → Arrival

pub record State : Type 0 where
  pub archival : ArchivalData
  pub receiver_errors : List String

abbrev pub count : String → State → State
count l s = record s { receiver_errors = s.receiver_errors ++ l ∷ [] }

abbrev pub stop : String → State → Step State
stop l s = return none (count l s)

-- The pong handler: a pong that is no number is counted, and its error is that of the read that met it.
unfoldable pub on_pong : Result ℤ → State → Option Error × State
on_pong (ok rtt) s = (none, s)
on_pong (err e) s = (some e, count "ping-parse-ticks" s)

-- The read fails with the handler's error, if there is one.
abbrev pub after_pong : String → Option Error × State → Step State
after_pong l (none, s) = continue s
after_pong l (some e, s) = stop l s

abbrev pub save : Measurement → State → State
save m s = record s {
  archival = record (s.archival) { client_measurements = s.archival.client_measurements ++ m ∷ [] };
}

module _ (decode : Bytes → Option Measurement) where
  abbrev pub decoded : Option Measurement → State → Step State
  decoded none s = stop "unmarshal-client-message" s
  decoded (some m) s = continue (save m s)

  abbrev pub on_text : Result Bytes → State → Step State
  on_text (err e) s = stop "read-message" s
  on_text (ok b) s = decoded (decode b) s

  abbrev pub on_binary : ReceiverKind → State → Step State
  on_binary download_receiver s = stop "wrong-message-type" s
  on_binary upload_receiver s = continue s

  -- One round of the loop.
  unfoldable pub step : ReceiverKind → Arrival → State → Step State
  unfolding on_pong
  step k expired s = stop "receiver-context-expired" s
  step k (unreadable e) s = stop "read-message-type" s
  step k binary s = on_binary k s
  step k (text r) s = on_text r s
  step k (pong r) s = after_pong "read-message-type" (on_pong r s)
  step k (pong_in_text e) s = after_pong "read-message" (on_pong (err e) s)

  -- `start`: the flag says how `SetReadDeadline` ends.
  unfoldable pub start : ReceiverKind → Option Error → List Arrival → ArchivalData → Step State
  start k (some e) arrivals d =
      stop "set-read-deadline" (record { archival = d; receiver_errors = [] })
  start k none arrivals d = run (step k) arrivals (record { archival = d; receiver_errors = [] })
