-- ===== src/Ndt5/C2s/Messages.antt =====
-- The upload test of ndt5 over a control connection whose writes succeed (ndt5/c2s/c2s.go).
use ndt_server.Common.{
  ℕ, ◌≡◌, ◌≢◌, refl, ap, ◌∙◌, sym, ◌↔◌, Bool, true, false, List, [], ◌∷◌, ◌++◌, Option, none, some,
  String, Bytes, Error, Result, ok, pos, Float, if◌then◌else◌, arith, itoa, format_int,
}
use ndt_server.Ndt5.C2s.{
  ArchivalData, TestConn, Session, Effect, test_conn_closed, returned, panicked,
  drain_forever_but_measure_for, metrics_of, drained, Run, if_sent, throughput, report,
  is_zero_bytes, after_drain, with_conn, after_serve, after_server, manage_test,
}
use ndt_server.Protocol.Conn.{Conn}
use ndt_server.Protocol.Delivery.{frame, send-Healthy, Healthy, sent}
use ndt_server.Protocol.Json.{Json}
use ndt_server.Protocol.Kind.{test_prepare, test_start, test_msg, test_finalize}
use ndt_server.Protocol.Messager.{Messager, conn_messager}
use ndt_server.Web100.Polling.{no_data, stop_measuring_iff}
use ndt_server.Web100.{
  Metrics, Poll, poll_snaps, new_measurer, start_measuring, stop_measuring, or_no_data,
}

metrics_of-none :
    (o : Option Metrics) → (metrics_of (or_no_data o) ≡ none) ↔ (or_no_data o ≡ no_data)
metrics_of-none none = (λ h. refl, λ h. refl)
metrics_of-none (some m) = (λ h. ground arith, λ h. ground arith)

stop_measuring-none :
    (ps : List Poll)
    → (metrics_of (stop_measuring (start_measuring ps new_measurer)) ≡ none)
      ↔ (stop_measuring (start_measuring ps new_measurer) ≡ no_data)
unfolding stop_measuring
stop_measuring-none ps = metrics_of-none _

drained-metrics : (e : Option Error) (r : Result Metrics) → (drained e r).0 ≡ metrics_of r
drained-metrics none r = refl
drained-metrics (some e) r = refl

-- The drain gives no metrics exactly when no round of polling gave a sample.
drain_none_iff :
    (ps : List Poll) (e : Option Error)
    → ((drain_forever_but_measure_for ps e).0 ≡ none) ↔ (poll_snaps ps ≡ [])
unfolding drain_forever_but_measure_for
drain_none_iff ps e =
    let r = stop_measuring (start_measuring ps new_measurer) in
    let (f, g) = stop_measuring-none ps in
    let (h, k) = stop_measuring_iff ps new_measurer in
    (λ q. h (f (sym (drained-metrics e r) ∙ q)), λ q. drained-metrics e r ∙ g (k q))

append_four :
    (bs : List Bytes) (a b c d : Bytes)
    → (((bs ++ a ∷ []) ++ b ∷ []) ++ c ∷ []) ++ d ∷ [] ≡ bs ++ a ∷ b ∷ c ∷ d ∷ []
append_four [] a b c d = refl
append_four (x ∷ bs) a b c d = ap (◌∷◌ x) (append_four bs a b c d)

module _ (fl : Float) (J : Json) where
  open fl use {F, of_int, div, lt, to_int}

  if_sent-panicked :
      (label : String) (r : ArchivalData F) (fx : List Effect) (o : Option Error × Conn)
      (k : Conn → Run fl J)
      → ((c : Conn) → (k c).0 ≢ panicked)
      → (if_sent fl J label r fx o k).0 ≢ panicked
  unfolding if_sent
  if_sent-panicked label r fx (some e, c) k g h = ground arith
  if_sent-panicked label r fx (none, c) k g h = g c h

  report-panicked :
      (m : Messager) (s : Session F) (r : ArchivalData F) (web100 : Metrics) (c : Conn)
      → (report fl J m s r web100 c).0 ≢ panicked
  unfolding report
  report-panicked m s r web100 c =
      if_sent-panicked "TestMsg" _ _ _ _
        (λ c'. if_sent-panicked "TestFinalize" _ _ _ _ (λ c'' h. ground arith))

  choice-panicked :
      (b : Bool) (x y : Run fl J)
      → x.0 ≢ panicked
      → y.0 ≢ panicked
      → (if b then x else y).0 ≢ panicked
  choice-panicked true x y h g = h
  choice-panicked false x y h g = g

  after_drain-panicked :
      (m : Messager) (s : Session F) (r : ArchivalData F) (c : Conn)
      (o : Option Metrics × Option Error)
      → ((after_drain fl J m s r c o).0 ≡ panicked) ↔ (o.0 ≡ none)
  unfolding after_drain
  after_drain-panicked m s r c (none, e) = (λ h. refl, λ h. refl)
  after_drain-panicked m s r c (some web100, none) =
      (λ h. absurd (report-panicked m s r web100 c h), λ h. ground arith)
  after_drain-panicked m s r c (some web100, some e) = (
    λ h. absurd (
        choice-panicked (is_zero_bytes fl J web100.tcp_info.bytes_received) _ _ (λ q. ground arith)
          (choice-panicked (lt s.seconds (of_int (pos 9))) _ _ (λ q. ground arith)
            (report-panicked m s r web100 c))
          h),
    λ h. ground arith,
  )

  abbrev pub begun : Session F → TestConn → ArchivalData F
  begun s t = record (with_conn fl J t) { start_time = s.start_time; end_time = s.end_time }

  abbrev started : Messager → ℕ → Conn → Conn
  started m port c = sent (sent c (frame J m test_prepare (itoa port))) (frame J m test_start [])

  manage_test-started :
      (s : Session F) (c : Conn) (m : Messager) (port : ℕ) (t : TestConn)
      → conn_messager c ≡ some m
      → s.server ≡ ok port
      → s.served ≡ ok t
      → Healthy c
      → manage_test fl J s c
        ≡ after_drain fl J m s
            (begun s t)
            (started m port c)
            (drain_forever_but_measure_for s.polls s.transfer_error)
  unfolding manage_test after_server after_serve if_sent
  manage_test-started s c m port t e p q h = rw (
    e,
    p,
    send-Healthy J m test_prepare (itoa port) c h,
    q,
    send-Healthy J m test_start [] (sent c (frame J m test_prepare (itoa port))) h,
  )

  -- With a messager, a server, a test connection and writes that succeed, the upload test panics exactly
  -- when no round of polling gave a sample: the metrics are then nil, and are used.
  pub manage_test_panics_iff :
      (s : Session F) (c : Conn) (m : Messager) (port : ℕ) (t : TestConn)
      → conn_messager c ≡ some m
      → s.server ≡ ok port
      → s.served ≡ ok t
      → Healthy c
      → ((manage_test fl J s c).0 ≡ panicked) ↔ (poll_snaps s.polls ≡ [])
  manage_test_panics_iff s c m port t e p q h =
      let a = manage_test-started s c m port t e p q h in
      let d = drain_forever_but_measure_for s.polls s.transfer_error in
      let (f, g) = after_drain-panicked m s (begun s t) (started m port c) d in
      let (k, l) = drain_none_iff s.polls s.transfer_error in rw a (λ x. k (f x), λ x. g (l x))

  -- If moreover the transfer lasts until its end, with these metrics: the client gets the port, the start,
  -- the throughput in Kbps and the end, in this order and nothing else; the record has the throughput in
  -- Mbps; there is no error; and the test connection is closed.
  pub manage_test_complete :
      (s : Session F) (c : Conn) (m : Messager) (port : ℕ) (t : TestConn) (web100 : Metrics)
      → conn_messager c ≡ some m
      → s.server ≡ ok port
      → s.served ≡ ok t
      → Healthy c
      → s.transfer_error ≡ none
      → stop_measuring (start_measuring s.polls new_measurer) ≡ ok web100
      → let kbps = throughput fl J web100.tcp_info.bytes_received s.seconds in
        manage_test fl J s c ≡ (
          returned
              (record (begun s t) { mean_throughput_mbps = div kbps (of_int (pos 1000)) })
              none,
          record c {
            outbox =
                c.outbox
                ++ frame J m test_prepare (itoa port)
                  ∷ frame J m test_start []
                  ∷ frame J m test_msg (format_int (to_int kbps))
                  ∷ frame J m test_finalize []
                  ∷ [];
          },
          test_conn_closed ∷ [],
        )
  unfolding drain_forever_but_measure_for after_drain report if_sent
  manage_test_complete s c m port t web100 e p q h te w =
      let kbps = throughput fl J web100.tcp_info.bytes_received s.seconds in
      let c2 = started m port c in
      let value = format_int (to_int kbps) in
      manage_test-started s c m port t e p q h
      ∙ rw (
        te,
        w,
        send-Healthy J m test_msg value c2 h,
        send-Healthy J m test_finalize [] (sent c2 (frame J m test_msg value)) h,
        append_four c.outbox (frame J m test_prepare (itoa port)) (frame J m test_start [])
            (frame J m test_msg value) (frame J m test_finalize []),
      )
