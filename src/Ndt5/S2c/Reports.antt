-- ===== src/Ndt5/S2c/Reports.antt =====
-- The messages of the download test of ndt5 while the writes succeed (ndt5/s2c/s2c.go).
use ndt_server.Common.{
  ℕ, ◌≡◌, [], ◌∷◌, ◌++◌, Option, none, some, Bytes, Error, codes, ok, pos, ℤ, Float, itoa,
  format_int,
}
use ndt_server.Ndt5.C2s.{TestConn, test_conn_closed}
use ndt_server.Ndt5.S2c.{
  ArchivalData, Session, returned, Shown, if_sent, closed, send_reports, reported, after_receive,
  throughput, with_metrics, after_metrics, timed, after_serve, after_server, manage_test,
}
use ndt_server.Protocol.Conn.{Conn}
use ndt_server.Protocol.Delivery.{frame, send-Healthy, Healthy, sent, write-Healthy}
use ndt_server.Protocol.Json.{Json}
use ndt_server.Protocol.Kind.{test_prepare, test_start, test_msg, test_finalize}
use ndt_server.Protocol.Messager.{
  Messager, json_messager, tlv_messager, conn_messager, send_s2c_results, receive_message,
}
use ndt_server.Protocol.Metrics.{deref}
use ndt_server.Protocol.Reports.{report, with_sent, send_metrics_complete}
use ndt_server.Protocol.Tlv.{tlv_frame, write_tlv_message}
use ndt_server.Web100.{Metrics, new_measurer, start_measuring, stop_measuring}

module _ (fl : Float) (J : Json) (shown : Shown fl.F) where
  open fl use {F, to_int, parse}

  -- The throughput and the bytes in the form of the messager.
  abbrev pub s2c_results : Messager → ℤ → ℤ → Bytes
  s2c_results json_messager kbps total =
      J.marshal_s2c (format_int kbps) (format_int (pos 0)) (format_int total)
  s2c_results tlv_messager kbps total =
      format_int kbps ++ (b' ' ∷ (format_int (pos 0) ++ (b' ' ∷ format_int total)))

  results-Healthy :
      (m : Messager) (kbps total : ℤ) (c : Conn)
      → Healthy c
      → send_s2c_results J m kbps (pos 0) total c
        ≡ (none, sent c (tlv_frame test_msg (s2c_results m kbps total)))
  unfolding send_s2c_results write_tlv_message
  results-Healthy json_messager kbps total c h = write-Healthy _ c h
  results-Healthy tlv_messager kbps total c h = write-Healthy _ c h

  -- The control connection after the three messages before the client's.
  abbrev pub with_results : Messager → ℕ → Metrics → F → Conn → Conn
  with_results m port web100 seconds c =
      sent (sent (sent c (frame J m test_prepare (itoa port))) (frame J m test_start [])) (
        tlv_frame test_msg (
          s2c_results m (to_int (throughput fl J shown web100 seconds))
            web100.tcp_info.bytes_acked))

  -- The control connection after the two reports and the last message.
  abbrev pub with_reports : Messager → ArchivalData F → Metrics → Conn → Conn
  with_reports m r web100 c =
      sent
        (with_sent J m (with_sent J m c (report (deref (shown.of_metrics web100)) []))
          (report (deref (shown.of_record r)) (codes "NDTResult.S2C.")))
        (frame J m test_finalize [])

  send_reports_lem :
      (m : Messager) (r : ArchivalData F) (web100 : Metrics) (c : Conn)
      → Healthy c
      → send_reports fl J shown m r web100 c
        ≡ (returned r none, with_reports m r web100 c, closed fl J shown)
  unfolding send_reports if_sent
  send_reports_lem m r web100 c h = rw (
    send_metrics_complete J m (shown.of_metrics web100) [] c h,
    send_metrics_complete J m (shown.of_record r) (codes "NDTResult.S2C.")
        (with_sent J m c (report (deref (shown.of_metrics web100)) [])) h,
    send-Healthy J m test_finalize []
        (with_sent J m (with_sent J m c (report (deref (shown.of_metrics web100)) []))
          (report (deref (shown.of_record r)) (codes "NDTResult.S2C.")))
        h,
  )

  -- With a messager, a server, a test connection, metrics and writes that succeed, and any message `b`
  -- from the client: the client gets the port, the start and the results, then, after its message, each
  -- line of the legacy metrics, each line of the archival data, and the end. The test returns without an
  -- error, also if `b` is no number, and the record has the client's rate if it is one.
  pub manage_test_reports :
      (s : Session F) (c c' : Conn) (m : Messager) (port : ℕ) (t : TestConn) (web100 : Metrics)
      (b : Bytes) (e : Option Error)
      → conn_messager c ≡ some m
      → s.server ≡ ok port
      → s.served ≡ ok (some t)
      → stop_measuring (start_measuring s.polls new_measurer) ≡ ok web100
      → Healthy c
      → receive_message J m test_msg (with_results m port web100 s.seconds c) ≡ (some b, e, c')
      → Healthy c'
      → let r =
          reported fl J shown
            (with_metrics fl J shown (timed fl J shown s t) web100 s.seconds)
            (parse b) in
        manage_test fl J shown s c
        ≡ (returned r none, with_reports m r web100 c', test_conn_closed ∷ [])
  unfolding manage_test after_server after_serve after_metrics after_receive if_sent
  manage_test_reports s c c' m port t web100 b e cm p q w h x h' =
      let c1 = sent c (frame J m test_prepare (itoa port)) in
      let c2 = sent c1 (frame J m test_start []) in
      rw
        (
          cm,
          p,
          send-Healthy J m test_prepare (itoa port) c h,
          q,
          send-Healthy J m test_start [] c1 h,
          w,
          results-Healthy m (to_int (throughput fl J shown web100 s.seconds))
              web100.tcp_info.bytes_acked c2 h,
          x,
        )
        (send_reports_lem m _ web100 c' h')
