-- ===== src/Ndt5/C2s/Outcomes.antt =====
-- How the upload test of ndt5 can end (ndt5/c2s/c2s.go).
use ndt_server.Common.{
  ℕ, ◌+◌, ◌≤◌, ◌≡◌, refl, Bool, true, false, List, [], ◌∷◌, Option, none, some, String, Error,
  Result, ok, err, pos, Float, if◌then◌else◌, arith,
}
use ndt_server.Ndt5.C2s.{
  ArchivalData, TestConn, Session, Effect, error_counted, test_conn_closed, Ending, returned,
  panicked, Run, fail, if_sent, throughput, report, is_zero_bytes, after_drain, with_conn,
  after_serve, after_server, manage_test, no_record,
}
use ndt_server.Protocol.Conn.{Conn}
use ndt_server.Protocol.Json.{Json}
use ndt_server.Protocol.Messager.{Messager, conn_messager}
use ndt_server.Web100.{Metrics}

unfoldable pub errors_counted : List Effect → ℕ
errors_counted [] = 0
errors_counted (error_counted l ∷ fx) = 1 + errors_counted fx
errors_counted (test_conn_closed ∷ fx) = errors_counted fx

unfoldable pub closes : List Effect → ℕ
closes [] = 0
closes (error_counted l ∷ fx) = closes fx
closes (test_conn_closed ∷ fx) = 1 + closes fx

abbrev pub IsReportedBy : {F : Type 0} → Ending F → List Effect → Type 0
IsReportedBy (returned r none) fx = (r.error ≡ none) × (errors_counted fx ≡ 0)
IsReportedBy (returned r (some e)) fx = (r.error ≡ some e) × (errors_counted fx ≡ 1)
IsReportedBy panicked fx = errors_counted fx ≡ 0

module _ (fl : Float) (J : Json) where
  open fl use {F, of_int, div, lt, to_int}

  -- The record has the error that is returned, which is counted once; nothing else is counted; and the
  -- test connection is closed at most once.
  abbrev pub IsReported : Run fl J → Type 0
  IsReported (ending, c, fx) = IsReportedBy ending fx × (closes fx ≤ 1)

  abbrev IsQuiet : List Effect → Type 0
  IsQuiet fx = (errors_counted fx ≡ 0) × (closes fx ≤ 1)

  fail-IsReported :
      (label : String) (e : Error) (r : ArchivalData F) (c : Conn) (fx : List Effect)
      → IsQuiet fx
      → IsReported (fail fl J label e r c fx)
  unfolding errors_counted closes
  fail-IsReported label e r c fx h = ((refl, omega (arith, h.0)), h.1)

  if_sent-IsReported :
      (label : String) (r : ArchivalData F) (fx : List Effect) (o : Option Error × Conn)
      (k : Conn → Run fl J)
      → IsQuiet fx
      → ((c : Conn) → IsReported (k c))
      → IsReported (if_sent fl J label r fx o k)
  unfolding if_sent
  if_sent-IsReported label r fx (some e, c) k h g = fail-IsReported label e r c fx h
  if_sent-IsReported label r fx (none, c) k h g = g c

  closed_once : IsQuiet (test_conn_closed ∷ [])
  unfolding errors_counted closes
  closed_once = (refl, omega arith)

  not_closed : IsQuiet []
  unfolding errors_counted closes
  not_closed = (refl, omega arith)

  report-IsReported :
      (m : Messager) (s : Session F) (r : ArchivalData F) (web100 : Metrics) (c : Conn)
      → r.error ≡ none
      → IsReported (report fl J m s r web100 c)
  unfolding report
  report-IsReported m s r web100 c h =
      let r' = record r {
        mean_throughput_mbps =
            div (throughput fl J web100.tcp_info.bytes_received s.seconds) (of_int (pos 1000));
      } in
      if_sent-IsReported "TestMsg" r' _ _ _ closed_once (λ c'.
        if_sent-IsReported "TestFinalize" r' _ _ _ closed_once
          (λ c''. ((h, closed_once.0), closed_once.1)))

  choice-IsReported :
      (b : Bool) (x y : Run fl J) → IsReported x → IsReported y → IsReported (if b then x else y)
  choice-IsReported true x y h g = h
  choice-IsReported false x y h g = g

  after_drain-IsReported :
      (m : Messager) (s : Session F) (r : ArchivalData F) (c : Conn)
      (o : Option Metrics × Option Error)
      → r.error ≡ none
      → IsReported (after_drain fl J m s r c o)
  unfolding after_drain
  after_drain-IsReported m s r c (none, e) h = closed_once
  after_drain-IsReported m s r c (some web100, none) h = report-IsReported m s r web100 c h
  after_drain-IsReported m s r c (some web100, some e) h =
      choice-IsReported (is_zero_bytes fl J web100.tcp_info.bytes_received) _ _
        (fail-IsReported "Drain" e r c _ closed_once)
        (choice-IsReported (lt s.seconds (of_int (pos 9))) _ _
          (fail-IsReported "EarlyExit" e r c _ closed_once) (report-IsReported m s r web100 c h))

  after_serve-IsReported :
      (m : Messager) (s : Session F) (c : Conn) (t : Result TestConn)
      → IsReported (after_serve fl J m s c t)
  unfolding after_serve
  after_serve-IsReported m s c (err e) =
      fail-IsReported "ServeOnce" e (no_record fl J) c [] not_closed
  after_serve-IsReported m s c (ok t) =
      if_sent-IsReported "TestStart" (with_conn fl J t) _ _ _ closed_once
        (λ c'. after_drain-IsReported m s _ c' _ refl)

  after_server-IsReported :
      (m : Option Messager) (s : Session F) (c : Conn) (p : Result ℕ)
      → IsReported (after_server fl J m s c p)
  unfolding after_server
  after_server-IsReported m s c (err e) =
      fail-IsReported "StartSingleServingServer" e (no_record fl J) c [] not_closed
  after_server-IsReported none s c (ok port) = not_closed
  after_server-IsReported (some m) s c (ok port) =
      if_sent-IsReported "TestPrepare" (no_record fl J) _ _ _ not_closed
        (λ c'. after_serve-IsReported m s c' s.served)

  -- However the upload test ends: the error that it returns is in the record and is counted exactly once,
  -- a test that returns without error has none and counts none, nor does one that panics, and the test
  -- connection is closed at most once.
  pub manage_test-IsReported : (s : Session F) (c : Conn) → IsReported (manage_test fl J s c)
  unfolding manage_test
  manage_test-IsReported s c = after_server-IsReported (conn_messager c) s c s.server
