-- ===== src/Ndt5/Control/Both.antt =====
-- What a client that asks for the upload and the download test hears on the control connection, and what is recorded
-- (ndt5/ndt5.go, ndt5/c2s/c2s.go, ndt5/s2c/s2c.go).
use ndt_server.Common.{List, ◌∷◌, none, Bytes, Error, codes, Float}
use ndt_server.Ndt5.C2s.{TestConn, test_conn_closed}
use ndt_server.Ndt5.C2s
use ndt_server.Ndt5.Control.{Effect, in_test, Server, observed}
use ndt_server.Ndt5.S2c.{ArchivalData, Shown, reported, with_metrics, timed}
use ndt_server.Protocol.Conn.{Conn}
use ndt_server.Protocol.Json.{Json}
use ndt_server.Protocol.Messager.{Messager}
use ndt_server.Web100.{Metrics}

module _ (fl : Float) (J : Json) (shown : Shown fl.F) (trim_space : Bytes → Bytes)
    (panic_message : Bytes → Error → Bytes) where
  open fl use {F, parse}

  -- The record of the download, by the client's message.
  abbrev pub download : Server F → TestConn → Metrics → Bytes → ArchivalData F
  download s t web100 b =
      reported fl J shown
        (with_metrics fl J shown (timed fl J shown s.s2c_session t) web100 s.s2c_session.seconds)
        (parse b)

  abbrev pub of_download : ArchivalData F → List (Effect F)
  of_download d =
      in_test (codes "s2c") test_conn_closed
      ∷ observed fl J shown trim_space panic_message (codes "s2c") none d.mean_throughput_mbps
