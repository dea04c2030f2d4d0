-- ===== src/Ndt5/S2c/Ends.antt =====
-- How the download test of ndt5 can end (ndt5/s2c/s2c.go).
use ndt_server.Common.{
  ℕ, ◌≤◌, ◌≡◌, refl, List, [], Option, none, some, String, Bytes, Error, Result, ok, err, Float,
  arith,
}
use ndt_server.Ndt5.C2s.Outcomes.{errors_counted, closes}
use ndt_server.Ndt5.C2s.{TestConn, Effect}
use ndt_server.Ndt5.S2c.{
  ArchivalData, Session, returned, panicked, Shown, Run, no_record, fail, if_sent, closed,
  send_reports, reported, after_receive, with_metrics, after_metrics, with_conn, timed, after_serve,
  after_server, manage_test,
}
use ndt_server.Protocol.Conn.{Conn}
use ndt_server.Protocol.Json.{Json}
use ndt_server.Protocol.Messager.{Messager, conn_messager}
use ndt_server.Web100.{Metrics}

module _ (fl : Float) (J : Json) (shown : Shown fl.F) where
  open fl use {F, parse}

  -- A return with an error has it in the record and counts it once, and closes the test connection at
  -- most once; a return without an error counts none, and has closed the test connection once.
  abbrev pub IsAccountedFor : Run fl J shown → Type 0
  IsAccountedFor (returned r (some e), c, fx) =
      (r.error ≡ some e) × (errors_counted fx ≡ 1) × (closes fx ≤ 1)
  IsAccountedFor (returned r none, c, fx) =
      (r.error ≡ none) × (errors_counted fx ≡ 0) × (closes fx ≡ 1)
  IsAccountedFor (panicked, c, fx) = ⊥

  fail-IsAccountedFor :
      (label : String) (e : Error) (r : ArchivalData F) (c : Conn) (fx : List Effect)
      → errors_counted fx ≡ 0
      → closes fx ≤ 1
      → IsAccountedFor (fail fl J shown label e r c fx)
  unfolding errors_counted closes
  fail-IsAccountedFor label e r c fx h k = (refl, omega (arith, h), k)

  if_sent-IsAccountedFor :
      (label : String) (r : ArchivalData F) (fx : List Effect) (o : Option Error × Conn)
      (k : Conn → Run fl J shown)
      → errors_counted fx ≡ 0
      → closes fx ≤ 1
      → ((c : Conn) → IsAccountedFor (k c))
      → IsAccountedFor (if_sent fl J shown label r fx o k)
  unfolding if_sent
  if_sent-IsAccountedFor label r fx (some e, c) k h g f = fail-IsAccountedFor label e r c fx h g
  if_sent-IsAccountedFor label r fx (none, c) k h g f = f c

  closed_once : (errors_counted (closed fl J shown) ≡ 0) × (closes (closed fl J shown) ≡ 1)
  unfolding errors_counted closes
  closed_once = (refl, refl)

  if_sent-closed :
      (label : String) (r : ArchivalData F) (o : Option Error × Conn) (k : Conn → Run fl J shown)
      → ((c : Conn) → IsAccountedFor (k c))
      → IsAccountedFor (if_sent fl J shown label r (closed fl J shown) o k)
  if_sent-closed label r o k f =
      if_sent-IsAccountedFor label r _ o k closed_once.0 (omega (arith, closed_once.1)) f

  fail-closed :
      (label : String) (e : Error) (r : ArchivalData F) (c : Conn)
      → IsAccountedFor (fail fl J shown label e r c (closed fl J shown))
  fail-closed label e r c =
      fail-IsAccountedFor label e r c _ closed_once.0 (omega (arith, closed_once.1))

  fail_unserved :
      (label : String) (e : Error) (c : Conn)
      → IsAccountedFor (fail fl J shown label e (no_record fl J shown) c [])
  unfolding errors_counted closes
  fail_unserved label e c = (refl, refl, omega arith)

  send_reports-IsAccountedFor :
      (m : Messager) (r : ArchivalData F) (web100 : Metrics) (c : Conn)
      → r.error ≡ none
      → IsAccountedFor (send_reports fl J shown m r web100 c)
  unfolding send_reports
  send_reports-IsAccountedFor m r web100 c h = if_sent-closed "SendMetricsLegacy" r _ _ (λ c1.
      if_sent-closed "SendMetricsArchival" r _ _
        (λ c2. if_sent-closed "TestFinalize" r _ _ (λ c3. (h, closed_once.0, closed_once.1))))

  reported-error : (r : ArchivalData F) (o : Option F) → (reported fl J shown r o).error ≡ r.error
  reported-error r none = refl
  reported-error r (some x) = refl

  after_receive-IsAccountedFor :
      (m : Messager) (r : ArchivalData F) (web100 : Metrics)
      (o : Option Bytes × Option Error × Conn)
      → r.error ≡ none
      → IsAccountedFor (after_receive fl J shown m r web100 o)
  unfolding after_receive
  after_receive-IsAccountedFor m r web100 (none, some e, c) h = fail-closed "TestMsgRcv" e r c
  after_receive-IsAccountedFor m r web100 (none, none, c) h =
      send_reports-IsAccountedFor m (reported fl J shown r (parse [])) web100 c
        (rw (reported-error r (parse [])) h)
  after_receive-IsAccountedFor m r web100 (some b, e, c) h =
      send_reports-IsAccountedFor m (reported fl J shown r (parse b)) web100 c
        (rw (reported-error r (parse b)) h)

  after_metrics-IsAccountedFor :
      (m : Messager) (s : Session F) (r : ArchivalData F) (c : Conn) (o : Result Metrics)
      → r.error ≡ none
      → IsAccountedFor (after_metrics fl J shown m s r c o)
  unfolding after_metrics
  after_metrics-IsAccountedFor m s r c (err e) h = fail-closed "web100Metrics" e r c
  after_metrics-IsAccountedFor m s r c (ok web100) h =
      if_sent-closed "TestMsgSend" _ _ _ (λ c'.
        after_receive-IsAccountedFor m (with_metrics fl J shown r web100 s.seconds) web100 _ h)

  after_serve-IsAccountedFor :
      (m : Messager) (s : Session F) (c : Conn) (o : Result (Option TestConn))
      → IsAccountedFor (after_serve fl J shown m s c o)
  unfolding after_serve
  after_serve-IsAccountedFor m s c (err e) = fail_unserved "ServeOnce" e c
  after_serve-IsAccountedFor m s c (ok none) = fail_unserved "ServeOnce" _ c
  after_serve-IsAccountedFor m s c (ok (some t)) =
      if_sent-closed "TestStart" (with_conn fl J shown t) _ _
        (λ c'. after_metrics-IsAccountedFor m s (timed fl J shown s t) c' _ refl)

  none_counted : (errors_counted [] ≡ 0) × (closes [] ≤ 1)
  unfolding errors_counted closes
  none_counted = (refl, omega arith)

  after_server-IsAccountedFor :
      (m : Messager) (s : Session F) (c : Conn) (o : Result ℕ)
      → IsAccountedFor (after_server fl J shown (some m) s c o)
  unfolding after_server
  after_server-IsAccountedFor m s c (err e) = fail_unserved "StartSingleServingServer" e c
  after_server-IsAccountedFor m s c (ok port) =
      if_sent-IsAccountedFor "TestPrepare" (no_record fl J shown) [] _ _ none_counted.0
        none_counted.1 (λ c'. after_serve-IsAccountedFor m s c' s.served)

  -- If the control connection has a messager, the download test returns on every path, whatever fails:
  -- with an error, which the record has and which is counted once, the test connection being closed at
  -- most once, or without, and then none is counted and the test connection is closed exactly once.
  pub manage_test-IsAccountedFor :
      (s : Session F) (c : Conn) (m : Messager)
      → conn_messager c ≡ some m
      → IsAccountedFor (manage_test fl J shown s c)
  unfolding manage_test
  manage_test-IsAccountedFor s c m h = rw h (after_server-IsAccountedFor m s c s.server)
