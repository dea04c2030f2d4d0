-- ===== src/Ndt7/Requests.antt =====
-- What the handling of an ndt7 request meets, records and does (ndt7/handler/handler.go, data/result.go).
use ndt_server.Common.{ℕ, Bool, Option, Bytes, Error, Result, ℤ, List}
use ndt_server.Ndt7.Download
use ndt_server.Ndt7.Model.{ArchivalData}
use ndt_server.Ndt7.Query.{Parameter}
use ndt_server.Ndt7.Spec.{SubtestKind}
use ndt_server.Ndt7.Subtest.{Outside}
use ndt_server.Ndt7.Upload
use ndt_server.Netx.{Addr, NetConn}

-- `data.NDT7Result` without the two version strings, which the build fixes.
pub record Ndt7Result : Type 0 where
  pub server_ip : Bytes
  pub server_port : ℕ
  pub client_ip : Bytes
  pub client_port : ℕ
  pub start_time : ℕ
  pub end_time : ℕ
  pub upload : Option ArchivalData
  pub download : Option ArchivalData

-- `inetdiag.SockID`, as far as it is set.
pub record SockId : Type 0 where
  pub src_ip : Bytes
  pub dst_ip : Bytes
  pub s_port : ℕ
  pub d_port : ℕ
  pub cookie : ℤ

-- How a subtest, or the handling of a request, ends: it returns, it panics, or the process ends in it, by a
-- `rtx.Must` in one of its goroutines or because `main` returns.
pub data Ending : Type 0 where
  returned panicked exited : Ending

-- A request, and what its handling meets: how the upgrade ends, what the connection is, its addresses
-- and the string of the local one, the cookie's and the fallback's UUID, the clock, the scripts of the
-- two subtests, how the subtest ends, and whether the access token is a monitoring one.
pub record Request : Type 0 where
  pub values : List Parameter
  pub websocket_protocol : Bytes
  pub upgrade : Option Error
  pub underlying : NetConn
  pub remote_addr : Addr
  pub local_addr : Addr
  pub local_string : Bytes
  pub cookie_uuid : Result Bytes
  pub fallback_uuid : Result Bytes
  pub start_time : ℕ
  pub end_time : ℕ
  pub download_script : Outside Download.Turn
  pub upload_script : Outside Upload.Turn
  pub subtest_ends : Ending
  pub is_monitoring : Bool

-- What the rest of the server sees: a Bad Request response, the counters `ClientConnections` and
-- `ClientTestResults`, the histogram `TestRate`, the events, the result that `writeResult` is given,
-- and the close of the connection.
pub data Effect (F : Type 0) : Type 0 where
  bad_request : Effect F
  connection_counted : SubtestKind → Bytes → Effect F
  flow_created : ℕ → Bytes → SockId → Effect F
  test_counted : Bytes → SubtestKind → Bytes → Effect F
  rate_observed : Bytes → SubtestKind → Bool → F → Effect F
  result_saved : Bytes → SubtestKind → Ndt7Result → Effect F
  flow_deleted : ℕ → Bytes → Effect F
  conn_closed : Effect F
