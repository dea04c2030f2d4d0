-- ===== src/Ndt5/S2c.antt =====
-- ndt5/s2c/s2c.go: the download test, over the control connection; what the test connection and the
-- clock do is given. What `FillUntil` sends and returns has no effect on the rest.
pub mod Ends
pub mod Labels
pub mod Reports
use ndt_server.Common.{
  ℕ, ◌+◌, ◌*◌, ◌%◌, ◌-◌, List, [], ◌∷◌, ◌++◌, Option, none, some, String, Bytes, Error, codes,
  Result, ok, err, pos, itoa, Float,
}
use ndt_server.Ndt5.C2s.{TestConn, Effect, error_counted, test_conn_closed}
use ndt_server.Protocol.Conn.{Conn}
use ndt_server.Protocol.Json.{Json}
use ndt_server.Protocol.Kind.{test_prepare, test_start, test_msg, test_finalize}
use ndt_server.Protocol.Messager.{
  Messager, conn_messager, send_message, send_s2c_results, receive_message,
}
use ndt_server.Protocol.Metrics.{Target, send_metrics}
use ndt_server.Tcp.{TcpInfo}
use ndt_server.Web100.{Metrics, Poll, new_measurer, start_measuring, stop_measuring}

-- Durations are in nanoseconds. A count of milliseconds below 2^32 stays below 2^63 in nanoseconds.
pub record ArchivalData (F : Type 0) : Type 0 where
  pub uuid : Bytes
  pub server_ip : Bytes
  pub server_port : ℕ
  pub client_ip : Bytes
  pub client_port : ℕ
  pub start_time : ℕ
  pub end_time : ℕ
  pub mean_throughput_mbps : F
  pub min_rtt : ℕ
  pub max_rtt : ℕ
  pub sum_rtt : ℕ
  pub count_rtt : ℕ
  pub client_reported_mbps : F
  pub tcp_info : Option TcpInfo
  -- Empty if there was no error.
  pub error : Option Error

-- What the test meets: the port of the single-serving server, the test connection, which may be nil, the
-- rounds of polling, and the clock around the transfer, with the float64 that `Seconds` gives for their
-- difference.
pub record Session (F : Type 0) : Type 0 where
  pub server : Result ℕ
  pub served : Result (Option TestConn)
  pub polls : List Poll
  pub start_time : ℕ
  pub end_time : ℕ
  pub seconds : F

pub data Ending (F : Type 0) : Type 0 where
  returned : ArchivalData F → Option Error → Ending F
  panicked : Ending F

-- What `reflect` shows of the two structs that are sent.
pub record Shown (F : Type 0) : Type 0 where
  pub of_metrics : Metrics → Target
  pub of_record : ArchivalData F → Target

module _ (fl : Float) (J : Json) (shown : Shown fl.F) where
  open fl use {F, of_int, mul, div, to_int, parse}

  -- How `ManageTest` ends, the control connection that it leaves, and its effects.
  abbrev pub Run : Type 0
  Run = Ending F × Conn × List Effect

  abbrev pub no_record : ArchivalData F
  no_record = record {
    uuid = [];
    server_ip = [];
    server_port = 0;
    client_ip = [];
    client_port = 0;
    start_time = 0;
    end_time = 0;
    mean_throughput_mbps = of_int (pos 0);
    min_rtt = 0;
    max_rtt = 0;
    sum_rtt = 0;
    count_rtt = 0;
    client_reported_mbps = of_int (pos 0);
    tcp_info = none;
    error = none;
  }

  -- A return with an error, which the deferred function also puts into the record.
  abbrev pub fail : String → Error → ArchivalData F → Conn → List Effect → Run
  fail label e r c fx =
      (returned (record r { error = some e }) (some e), c, error_counted label ∷ fx)

  unfoldable pub if_sent :
      String → ArchivalData F → List Effect → Option Error × Conn → (Conn → Run) → Run
  if_sent label r fx (some e, c) k = fail label e r c fx
  if_sent label r fx (none, c) k = k c

  abbrev pub closed : List Effect
  closed = test_conn_closed ∷ []

  -- The legacy metrics, the archival data and the end of the test.
  unfoldable pub send_reports : Messager → ArchivalData F → Metrics → Conn → Run
  send_reports m r web100 c =
      if_sent "SendMetricsLegacy" r closed (send_metrics J m (shown.of_metrics web100) [] c) (λ c1.
        if_sent "SendMetricsArchival" r closed
          (send_metrics J m (shown.of_record r) (codes "NDTResult.S2C.") c1)
          (λ c2.
            if_sent "TestFinalize" r closed (send_message J m test_finalize [] c2)
              (λ c3. (returned r none, c3, closed))))

  -- `strconv.ParseFloat` of the client's message: a failure is only logged.
  abbrev pub reported : ArchivalData F → Option F → ArchivalData F
  reported r none = r
  reported r (some kbps) = record r { client_reported_mbps = div kbps (of_int (pos 1000)) }

  -- After the client's message: an error ends the test only if nothing at all came.
  unfoldable pub after_receive :
      Messager → ArchivalData F → Metrics → Option Bytes × Option Error × Conn → Run
  after_receive m r web100 (none, some e, c) = fail "TestMsgRcv" e r c closed
  after_receive m r web100 (none, none, c) = send_reports m (reported r (parse [])) web100 c
  after_receive m r web100 (some b, e, c) = send_reports m (reported r (parse b)) web100 c

  -- The throughput in Kbps.
  abbrev pub throughput : Metrics → F → F
  throughput web100 seconds =
      div (div (mul (of_int (pos 8)) (of_int web100.tcp_info.bytes_acked)) seconds)
        (of_int (pos 1000))

  abbrev pub with_metrics : ArchivalData F → Metrics → F → ArchivalData F
  with_metrics r web100 seconds = record r {
    min_rtt = web100.min_rtt * 1000000;
    max_rtt = web100.max_rtt * 1000000;
    sum_rtt = web100.sum_rtt * 1000000;
    count_rtt = web100.count_rtt;
    mean_throughput_mbps = div (throughput web100 seconds) (of_int (pos 1000));
    tcp_info = some web100.tcp_info;
  }

  -- After `StopMeasuring`: the test connection is closed on both branches.
  unfoldable pub after_metrics : Messager → Session F → ArchivalData F → Conn → Result Metrics → Run
  after_metrics m s r c (err e) = fail "web100Metrics" e r c closed
  after_metrics m s r c (ok web100) =
      let r' = with_metrics r web100 s.seconds in
      if_sent "TestMsgSend" r' closed
        (send_s2c_results J m (to_int (throughput web100 s.seconds)) (pos 0)
          web100.tcp_info.bytes_acked c)
        (λ c'. after_receive m r' web100 (receive_message J m test_msg c'))

  abbrev pub with_conn : TestConn → ArchivalData F
  with_conn t = record no_record {
    uuid = t.uuid;
    server_ip = t.server_ip;
    server_port = t.server_port;
    client_ip = t.client_ip;
    client_port = t.client_port;
  }

  abbrev pub timed : Session F → TestConn → ArchivalData F
  timed s t = record (with_conn t) { start_time = s.start_time; end_time = s.end_time }

  unfoldable pub after_serve : Messager → Session F → Conn → Result (Option TestConn) → Run
  after_serve m s c (err e) = fail "ServeOnce" e no_record c []
  after_serve m s c (ok none) =
      fail "ServeOnce" (codes "nil testConn, but also a nil error") no_record c []
  after_serve m s c (ok (some t)) =
      if_sent "TestStart" (with_conn t) closed (send_message J m test_start [] c) (λ c'.
        after_metrics m s (timed s t) c' (stop_measuring (start_measuring s.polls new_measurer)))

  -- A nil messager panics at its first call.
  unfoldable pub after_server : Option Messager → Session F → Conn → Result ℕ → Run
  after_server m s c (err e) = fail "StartSingleServingServer" e no_record c []
  after_server none s c (ok port) = (panicked, c, [])
  after_server (some m) s c (ok port) =
      if_sent "TestPrepare" no_record [] (send_message J m test_prepare (itoa port) c)
        (λ c'. after_serve m s c' s.served)

  -- `ManageTest`.
  unfoldable pub manage_test : Session F → Conn → Run
  manage_test s c = after_server (conn_messager c) s c s.server
