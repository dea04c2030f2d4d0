-- ===== src/Ndt7/Measurer.antt =====
-- ndt7/measurer/measurer.go: the goroutine that samples a connection, with its consumer and `Stop`, as a
-- step relation. The ticker of the package memoryless is given by its ticks; what `ReadInfo` gives is chosen by the step.
pub mod Sampling
pub mod Ends
use ndt_server.Common.{
  ℕ, ◌/◌, ◌≡◌, Bool, true, false, ◌||◌, List, [], ◌∷◌, ◌++◌, Option, none, some, Bytes, Error,
  codes, Result, ok, err, pos,
}
use ndt_server.Ndt7.Model.{BbrInfo, ConnectionInfo, Measurement}
use ndt_server.Tcp.{TcpInfo}

-- The labels of the counter `BBREnabled`, by how `EnableBBR` ends.
unfoldable pub bbr_labels : Option Error → Bytes × Bytes
bbr_labels none = (codes "true", [])
bbr_labels (some e) = (codes "false", e)

abbrev no_measurement : Measurement
no_measurement = record {
  app_info = none;
  connection_info = none;
  bbr_info = none;
  tcp_info = none;
}

-- `measure`: `elapsed` is in nanoseconds, and the samples have microseconds.
unfoldable pub measure : ℕ → Result (BbrInfo × TcpInfo) → Measurement → Measurement
measure elapsed (err e) m = m
measure elapsed (ok (b, t)) m = record m {
  bbr_info = some (record b { elapsed_time = pos (elapsed / 1000) });
  tcp_info = some (record { linux_tcp_info = t; elapsed_time = pos (elapsed / 1000) });
}

-- What a tick of `loop` sends.
unfoldable pub sample : ConnectionInfo → ℕ → Result (BbrInfo × TcpInfo) → Measurement
unfolding measure
sample ci elapsed r = record (measure elapsed r no_measurement) { connection_info = some ci }

-- Where `loop` stands: before `memoryless.NewTicker`, before the next tick, before the send to the consumer, and
-- with the channel closed.
pub data At : Type 0 where
  starting ranging : At
  sending : Measurement → At
  finished : At

-- Whether `Stop` has been called and has returned.
pub data Stopping : Type 0 where
  not_called draining stopped : Stopping

-- `has_ticker` is `m.ticker != nil`; `ticks_over` is whether the ticker's channel is closed, or will be as soon as there is one.
pub record State : Type 0 where
  pub at : At
  pub has_ticker : Bool
  pub ticks_over : Bool
  pub stop : Stopping
  pub received : List Measurement

-- `Start`, with `loop` before its first step.
abbrev pub initial : State
initial = record {
  at = starting;
  has_ticker = false;
  ticks_over = false;
  stop = not_called;
  received = [];
}

module _ (ci : ConnectionInfo) where
  pub data Step (s : State) : State → Type 0 where
    no_ticker : s.at ≡ starting → Step s (record s { at = finished })
    ticker_made : s.at ≡ starting → Step s (record s { at = ranging; has_ticker = true })
    ticked :
        (elapsed : ℕ) (r : Result (BbrInfo × TcpInfo))
        → s.at ≡ ranging
        → s.ticks_over ≡ false
        → Step s (record s { at = sending (sample ci elapsed r) })
    ticks_ended : s.at ≡ ranging → s.ticks_over ≡ true → Step s (record s { at = finished })
    consumed :
        (m : Measurement)
        → s.at ≡ sending m
        → s.stop ≡ not_called
        → Step s (record s { at = ranging; received = s.received ++ m ∷ [] })
    drained :
        (m : Measurement)
        → s.at ≡ sending m
        → s.stop ≡ draining
        → Step s (record s { at = ranging })
    timed_out : Step s (record s { ticks_over = true })
    stop_called :
        s.stop ≡ not_called
        → Step s (record s { stop = draining; ticks_over = s.has_ticker || s.ticks_over })
    stop_returned : s.stop ≡ draining → s.at ≡ finished → Step s (record s { stop = stopped })

  pub data Reach : State → Type 0 where
    start : Reach initial
    later : {s t : State} → Reach s → Step s t → Reach t
