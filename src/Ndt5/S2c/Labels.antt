-- ===== src/Ndt5/S2c/Labels.antt =====
-- The labels under which the download test counts its errors (ndt5/s2c/s2c.go).
use ndt_server.Common.{
  ◌≡◌, refl, true, List, [], ◌∷◌, Option, none, some, String, Bytes, Error, codes, Result, ok, err,
  Float, All, ℕ, equal,
}
use ndt_server.Ndt5.C2s.Labels.{IsNamed}
use ndt_server.Ndt5.C2s.{TestConn, Effect}
use ndt_server.Ndt5.Panics.{is_in}
use ndt_server.Ndt5.S2c.{
  ArchivalData, Session, Shown, Run, if_sent, send_reports, after_receive, after_metrics,
  after_serve, after_server, manage_test,
}
use ndt_server.Protocol.Conn.{Conn}
use ndt_server.Protocol.Json.{Json}
use ndt_server.Protocol.Messager.{Messager, conn_messager}
use ndt_server.Web100.{Metrics}

abbrev pub labels : List Bytes
labels =
    codes "StartSingleServingServer"
    ∷ codes "TestPrepare"
    ∷ codes "ServeOnce"
    ∷ codes "TestStart"
    ∷ codes "web100Metrics"
    ∷ codes "TestMsgSend"
    ∷ codes "TestMsgRcv"
    ∷ codes "SendMetricsLegacy"
    ∷ codes "SendMetricsArchival"
    ∷ codes "TestFinalize"
    ∷ []

module _ (fl : Float) (J : Json) (shown : Shown fl.F) where
  open fl use {F, parse}

  abbrev AreNamed : Run fl J shown → Type 0
  AreNamed (o, c, fx) = All (IsNamed labels) fx

  if_sent-AreNamed :
      (label : String) (r : ArchivalData F) (fx : List Effect) (o : Option Error × Conn)
      (k : Conn → Run fl J shown)
      → (is_in (codes label) labels ≡ true)
      → All (IsNamed labels) fx
      → ((c : Conn) → AreNamed (k c))
      → AreNamed (if_sent fl J shown label r fx o k)
  unfolding if_sent
  if_sent-AreNamed label r fx (some e, c) k l h g = (l, h)
  if_sent-AreNamed label r fx (none, c) k l h g = g c

  send_reports-AreNamed :
      (m : Messager) (r : ArchivalData F) (w : Metrics) (c : Conn)
      → AreNamed (send_reports fl J shown m r w c)
  unfolding send_reports equal
  send_reports-AreNamed m r w c =
      if_sent-AreNamed "SendMetricsLegacy" _ _ _ _ refl (tt, tt)
        (λ c1.
          if_sent-AreNamed "SendMetricsArchival" _ _ _ _ refl (tt, tt)
            (λ c2. if_sent-AreNamed "TestFinalize" _ _ _ _ refl (tt, tt) (λ c3. (tt, tt))))

  after_receive-AreNamed :
      (m : Messager) (r : ArchivalData F) (w : Metrics) (o : Option Bytes × Option Error × Conn)
      → AreNamed (after_receive fl J shown m r w o)
  unfolding after_receive equal
  after_receive-AreNamed m r w (none, some e, c) = (refl, (tt, tt))
  after_receive-AreNamed m r w (none, none, c) = send_reports-AreNamed m _ w c
  after_receive-AreNamed m r w (some b, e, c) = send_reports-AreNamed m _ w c

  after_metrics-AreNamed :
      (m : Messager) (s : Session F) (r : ArchivalData F) (c : Conn) (o : Result Metrics)
      → AreNamed (after_metrics fl J shown m s r c o)
  unfolding after_metrics equal
  after_metrics-AreNamed m s r c (err e) = (refl, (tt, tt))
  after_metrics-AreNamed m s r c (ok w) =
      if_sent-AreNamed "TestMsgSend" _ _ _ _ refl (tt, tt) (λ c'. after_receive-AreNamed m _ w _)

  after_serve-AreNamed :
      (m : Messager) (s : Session F) (c : Conn) (o : Result (Option TestConn))
      → AreNamed (after_serve fl J shown m s c o)
  unfolding after_serve equal
  after_serve-AreNamed m s c (err e) = (refl, tt)
  after_serve-AreNamed m s c (ok none) = (refl, tt)
  after_serve-AreNamed m s c (ok (some t)) =
      if_sent-AreNamed "TestStart" _ _ _ _ refl (tt, tt) (λ c'. after_metrics-AreNamed m s _ c' _)

  after_server-AreNamed :
      (m : Option Messager) (s : Session F) (c : Conn) (o : Result ℕ)
      → AreNamed (after_server fl J shown m s c o)
  unfolding after_server equal
  after_server-AreNamed m s c (err e) = (refl, tt)
  after_server-AreNamed none s c (ok port) = tt
  after_server-AreNamed (some m) s c (ok port) =
      if_sent-AreNamed "TestPrepare" _ _ _ _ refl tt (λ c'. after_serve-AreNamed m s c' s.served)

  pub manage_test-AreNamed :
      (s : Session F) (c : Conn) → All (IsNamed labels) (manage_test fl J shown s c).2
  unfolding manage_test
  manage_test-AreNamed s c = after_server-AreNamed (conn_messager c) s c s.server
