-- ===== src/Ndt5/C2s/Draining.antt =====
-- The goroutines of `drainForeverButMeasureFor` (ndt5/c2s/c2s.go): the one that reads the test connection, the
-- function itself, and the one with which `ManageTest` closes the connection afterwards. When a read gives bytes or
-- fails is chosen by the connection, when the derived context ends by the clock.
pub mod Channel
pub mod Refines
pub mod Ends
use ndt_server.Common.{
  ℕ, suc, ◌≡◌, Bool, true, false, List, Option, none, some, Error, Result, ok, err,
}
use ndt_server.Web100.{Metrics, Poll, new_measurer, start_measuring, stop_measuring}

-- The reading goroutine: in its loop, before `errs <- connErr`, and ended.
pub data Reader : Type 0 where
  reading : Reader
  failed ended : Error → Reader

-- The function: at its select, in the case of the timeout and in that of an error, both before `StopMeasuring`, after
-- the select with `socketStats` and `err`, before the deferred `derivedCancel()` with what it returns, and
-- returned.
pub data At : Type 0 where
  selecting timed_out : At
  failing : Error → At
  stopped cancelling returned : Option Metrics × Option Error → At

-- How many reads the buffers can answer without the network, what the channel holds, whether the derived context is
-- done, whether it was done before it was cancelled, by the time or with its parent, and whether the connection is
-- closed.
pub record State : Type 0 where
  pub reader : Reader
  pub buffered : ℕ
  pub errs : Option Error
  pub context_done : Bool
  pub expired : Bool
  pub closed : Bool
  pub at : At

abbrev pub initial : ℕ → Bool → State
initial buffered done = record {
  reader = reading;
  buffered = buffered;
  errs = none;
  context_done = done;
  expired = done;
  closed = false;
  at = selecting;
}

-- `conn.StopMeasuring()`.
abbrev pub of_result : Result Metrics → Option Metrics × Option Error
of_result (ok m) = (some m, none)
of_result (err e) = (none, some e)

abbrev pub measured : List Poll → Option Metrics × Option Error
measured polls = of_result (stop_measuring (start_measuring polls new_measurer))

-- The channel has room for one error. A read of a closed connection gives what is buffered, and then an error.
pub data Step (polls : List Poll) (s : State) : State → Type 0 where
  read_network :
      (n : ℕ) → s.reader ≡ reading → s.closed ≡ false → Step polls s (record s { buffered = n })
  read_buffer :
      (n : ℕ) → s.reader ≡ reading → s.buffered ≡ suc n → Step polls s (record s { buffered = n })
  read_fails : (e : Error) → s.reader ≡ reading → Step polls s (record s { reader = failed e })
  sends_error :
      (e : Error)
      → s.reader ≡ failed e
      → s.errs ≡ none
      → Step polls s (record s { reader = ended e; errs = some e })
  context_ends :
      s.context_done ≡ false → Step polls s (record s { context_done = true; expired = true })
  context_taken :
      s.at ≡ selecting → s.context_done ≡ true → Step polls s (record s { at = timed_out })
  error_taken :
      (e : Error)
      → s.at ≡ selecting
      → s.errs ≡ some e
      → Step polls s (record s { errs = none; at = failing e })
  stops_timed_out : s.at ≡ timed_out → Step polls s (record s { at = stopped (measured polls) })
  stops_failing :
      (e : Error)
      → s.at ≡ failing e
      → Step polls s (record s { at = stopped ((measured polls).0, some e) })
  finds_nothing :
      (e : Option Error)
      → s.at ≡ stopped (none, e)
      → Step polls s (record s { at = cancelling (none, e) })
  finds_metrics :
      (m : Metrics) (e : Option Error)
      → s.at ≡ stopped (some m, e)
      → Step polls s (record s { at = cancelling (some m, e) })
  returns :
      (r : Option Metrics × Option Error)
      → s.at ≡ cancelling r
      → Step polls s (record s { context_done = true; at = returned r })
  closes :
      (r : Option Metrics × Option Error)
      → s.at ≡ returned r
      → Step polls s (record s { closed = true })

-- From any amount of buffered bytes, and with a context that may be done already.
pub data Reach (polls : List Poll) : State → Type 0 where
  start : (n : ℕ) (b : Bool) → Reach polls (initial n b)
  later : {s t : State} → Reach polls s → Step polls s t → Reach polls t
