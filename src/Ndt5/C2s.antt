-- ===== src/Ndt5/C2s.antt =====
-- ndt5/c2s/c2s.go: the upload test. The messages go over the control connection, and what the test
-- connection and the clock do is given.
pub mod Outcomes
pub mod Draining
pub mod Labels
pub mod Messages
use ndt_server.Common.{
  ℕ, ◌==◌, Bool, true, false, List, [], ◌∷◌, ◌++◌, Option, none, some, String, Bytes, Error, codes,
  Result, ok, err, ℤ, pos, negsuc, format_int, itoa, Float, if◌then◌else◌,
}
use ndt_server.Protocol.Conn.{Conn}
use ndt_server.Protocol.Json.{Json}
use ndt_server.Protocol.Kind.{test_prepare, test_start, test_msg, test_finalize}
use ndt_server.Protocol.Messager.{Messager, conn_messager, send_message}
use ndt_server.Web100.{Metrics, Poll, new_measurer, start_measuring, stop_measuring}

pub record ArchivalData (F : Type 0) : Type 0 where
  pub server_ip : Bytes
  pub server_port : ℕ
  pub client_ip : Bytes
  pub client_port : ℕ
  pub uuid : Bytes
  pub start_time : ℕ
  pub end_time : ℕ
  pub mean_throughput_mbps : F
  -- Empty if there was no error.
  pub error : Option Error

-- The connection that `ServeOnce` gives: its UUID and addresses.
pub record TestConn : Type 0 where
  pub uuid : Bytes
  pub server_ip : Bytes
  pub server_port : ℕ
  pub client_ip : Bytes
  pub client_port : ℕ

-- What the test meets: the port of the single-serving server, the test connection, the rounds of polling,
-- the error that ends the transfer unless ten seconds pass first, and the clock around the transfer, with
-- the float64 that `Seconds` gives for their difference.
pub record Session (F : Type 0) : Type 0 where
  pub server : Result ℕ
  pub served : Result TestConn
  pub polls : List Poll
  pub transfer_error : Option Error
  pub start_time : ℕ
  pub end_time : ℕ
  pub seconds : F

-- The counter `ClientTestErrors` of the test, and the close of the test connection after three seconds.
pub data Effect : Type 0 where
  error_counted : String → Effect
  test_conn_closed : Effect

pub data Ending (F : Type 0) : Type 0 where
  returned : ArchivalData F → Option Error → Ending F
  panicked : Ending F

abbrev metrics_of : Result Metrics → Option Metrics
metrics_of (ok m) = some m
metrics_of (err e) = none

abbrev error_in : Result Metrics → Option Error
error_in (ok m) = none
error_in (err e) = some e

abbrev pub drained : Option Error → Result Metrics → Option Metrics × Option Error
drained none r = (metrics_of r, error_in r)
drained (some e) r = (metrics_of r, some e)

-- `drainForeverButMeasureFor`: the metrics, or nil, and the error, or nil.
unfoldable pub drain_forever_but_measure_for :
    List Poll → Option Error → Option Metrics × Option Error
drain_forever_but_measure_for polls transfer_error =
    drained transfer_error (stop_measuring (start_measuring polls new_measurer))

module _ (fl : Float) (J : Json) where
  open fl use {F, of_int, mul, div, lt, to_int}

  -- How `ManageTest` ends, the control connection that it leaves, and its effects.
  abbrev pub Run : Type 0
  Run = Ending F × Conn × List Effect

  abbrev pub no_record : ArchivalData F
  no_record = record {
    server_ip = [];
    server_port = 0;
    client_ip = [];
    client_port = 0;
    uuid = [];
    start_time = 0;
    end_time = 0;
    mean_throughput_mbps = of_int (pos 0);
    error = none;
  }

  -- A return with an error, which the deferred function also puts into the record.
  abbrev pub fail : String → Error → ArchivalData F → Conn → List Effect → Run
  fail label e r c fx =
      (returned (record r { error = some e }) (some e), c, error_counted label ∷ fx)

  -- Go on if a message was sent, and else return.
  unfoldable pub if_sent :
      String → ArchivalData F → List Effect → Option Error × Conn → (Conn → Run) → Run
  if_sent label r fx (some e, c) k = fail label e r c fx
  if_sent label r fx (none, c) k = k c

  -- The throughput in Kbps.
  abbrev pub throughput : ℤ → F → F
  throughput bytes seconds =
      div (div (mul (of_int (pos 8)) (of_int bytes)) (of_int (pos 1000))) seconds

  -- From the throughput to the end.
  unfoldable pub report : Messager → Session F → ArchivalData F → Metrics → Conn → Run
  report m s r web100 c =
      let value = throughput web100.tcp_info.bytes_received s.seconds in
      let r' = record r { mean_throughput_mbps = div value (of_int (pos 1000)) } in
      if_sent "TestMsg" r' (test_conn_closed ∷ [])
        (send_message J m test_msg (format_int (to_int value)) c)
        (λ c'.
          if_sent "TestFinalize" r' (test_conn_closed ∷ []) (send_message J m test_finalize [] c')
            (λ c''. (returned r' none, c'', test_conn_closed ∷ [])))

  abbrev is_zero_bytes : ℤ → Bool
  is_zero_bytes (pos n) = n == 0
  is_zero_bytes (negsuc n) = false

  -- After the transfer. The metrics may be nil: then the code reads a field of nil, and panics.
  unfoldable pub after_drain :
      Messager → Session F → ArchivalData F → Conn → Option Metrics × Option Error → Run
  after_drain m s r c (none, e) = (panicked, c, test_conn_closed ∷ [])
  after_drain m s r c (some web100, none) = report m s r web100 c
  after_drain m s r c (some web100, some e) =
      let whole = report m s r web100 c in
      if is_zero_bytes web100.tcp_info.bytes_received
      then fail "Drain" e r c (test_conn_closed ∷ [])
      else if lt s.seconds (of_int (pos 9))
      then fail "EarlyExit" e r c (test_conn_closed ∷ [])
      else whole

  abbrev with_conn : TestConn → ArchivalData F
  with_conn t = record no_record {
    uuid = t.uuid;
    server_ip = t.server_ip;
    server_port = t.server_port;
    client_ip = t.client_ip;
    client_port = t.client_port;
  }

  unfoldable pub after_serve : Messager → Session F → Conn → Result TestConn → Run
  after_serve m s c (err e) = fail "ServeOnce" e no_record c []
  after_serve m s c (ok t) =
      if_sent "TestStart" (with_conn t) (test_conn_closed ∷ []) (send_message J m test_start [] c)
        (λ c'.
          after_drain m s
            (record (with_conn t) { start_time = s.start_time; end_time = s.end_time }) c'
            (drain_forever_but_measure_for s.polls s.transfer_error))

  -- A nil messager panics at its first call.
  unfoldable pub after_server : Option Messager → Session F → Conn → Result ℕ → Run
  after_server m s c (err e) = fail "StartSingleServingServer" e no_record c []
  after_server none s c (ok port) = (panicked, c, [])
  after_server (some m) s c (ok port) =
      if_sent "TestPrepare" no_record [] (send_message J m test_prepare (itoa port) c)
        (λ c'. after_serve m s c' s.served)

  -- `ManageTest`.
  unfoldable pub manage_test : Session F → Conn → Run
  manage_test s c = after_server (conn_messager c) s c s.server
