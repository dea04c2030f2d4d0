-- ===== src/Ndt5/C2s/Labels.antt =====
-- The labels under which the tests count their errors (ndt5/c2s/c2s.go).
use ndt_server.Common.{
  ◌≡◌, refl, Bool, true, false, List, [], ◌∷◌, Option, none, some, String, Bytes, Error, codes,
  Result, ok, err, Float, All, ℕ, equal, pos, if◌then◌else◌,
}
use ndt_server.Ndt5.C2s.{
  ArchivalData, TestConn, Session, Effect, error_counted, test_conn_closed, Run, if_sent, report,
  is_zero_bytes, after_drain, after_serve, after_server, manage_test,
}
use ndt_server.Ndt5.Panics.{is_in}
use ndt_server.Protocol.Conn.{Conn}
use ndt_server.Protocol.Json.{Json}
use ndt_server.Protocol.Messager.{Messager, conn_messager}
use ndt_server.Web100.{Metrics}

-- An error is counted under one of these labels.
abbrev pub IsNamed : List Bytes → Effect → Type 0
IsNamed names (error_counted l) = is_in (codes l) names ≡ true
IsNamed names test_conn_closed = Unit

abbrev pub labels : List Bytes
labels =
    codes "StartSingleServingServer"
    ∷ codes "TestPrepare"
    ∷ codes "ServeOnce"
    ∷ codes "TestStart"
    ∷ codes "Drain"
    ∷ codes "EarlyExit"
    ∷ codes "TestMsg"
    ∷ codes "TestFinalize"
    ∷ []

module _ (fl : Float) (J : Json) where
  open fl use {F, of_int, lt}

  abbrev AreNamed : Run fl J → Type 0
  AreNamed (o, c, fx) = All (IsNamed labels) fx

  if_sent-AreNamed :
      (label : String) (r : ArchivalData F) (fx : List Effect) (o : Option Error × Conn)
      (k : Conn → Run fl J)
      → (is_in (codes label) labels ≡ true)
      → All (IsNamed labels) fx
      → ((c : Conn) → AreNamed (k c))
      → AreNamed (if_sent fl J label r fx o k)
  unfolding if_sent
  if_sent-AreNamed label r fx (some e, c) k l h g = (l, h)
  if_sent-AreNamed label r fx (none, c) k l h g = g c

  report-AreNamed :
      (m : Messager) (s : Session F) (r : ArchivalData F) (w : Metrics) (c : Conn)
      → AreNamed (report fl J m s r w c)
  unfolding report
  report-AreNamed m s r w c =
      if_sent-AreNamed "TestMsg" _ _ _ _ (unfold equal in refl) (tt, tt)
        (λ c1.
          if_sent-AreNamed "TestFinalize" _ _ _ _ (unfold equal in refl) (tt, tt) (λ c2. (tt, tt)))

  choice-AreNamed :
      (b : Bool) (x y : Run fl J) → AreNamed x → AreNamed y → AreNamed (if b then x else y)
  choice-AreNamed true x y h k = h
  choice-AreNamed false x y h k = k

  after_drain-AreNamed :
      (m : Messager) (s : Session F) (r : ArchivalData F) (c : Conn)
      (o : Option Metrics × Option Error)
      → AreNamed (after_drain fl J m s r c o)
  unfolding after_drain equal
  after_drain-AreNamed m s r c (none, e) = (tt, tt)
  after_drain-AreNamed m s r c (some w, none) = report-AreNamed m s r w c
  after_drain-AreNamed m s r c (some w, some e) =
      choice-AreNamed (is_zero_bytes fl J w.tcp_info.bytes_received) _ _ (refl, (tt, tt))
        (choice-AreNamed (lt s.seconds (of_int (pos 9))) _ _ (refl, (tt, tt))
          (report-AreNamed m s r w c))

  after_serve-AreNamed :
      (m : Messager) (s : Session F) (c : Conn) (o : Result TestConn)
      → AreNamed (after_serve fl J m s c o)
  unfolding after_serve equal
  after_serve-AreNamed m s c (err e) = (refl, tt)
  after_serve-AreNamed m s c (ok t) =
      if_sent-AreNamed "TestStart" _ _ _ _ refl (tt, tt) (λ c'. after_drain-AreNamed m s _ c' _)

  after_server-AreNamed :
      (m : Option Messager) (s : Session F) (c : Conn) (o : Result ℕ)
      → AreNamed (after_server fl J m s c o)
  unfolding after_server equal
  after_server-AreNamed m s c (err e) = (refl, tt)
  after_server-AreNamed none s c (ok port) = tt
  after_server-AreNamed (some m) s c (ok port) =
      if_sent-AreNamed "TestPrepare" _ _ _ _ refl tt (λ c'. after_serve-AreNamed m s c' s.served)

  pub manage_test-AreNamed :
      (s : Session F) (c : Conn) → All (IsNamed labels) (manage_test fl J s c).2
  unfolding manage_test
  manage_test-AreNamed s c = after_server-AreNamed (conn_messager c) s c s.server
