-- ===== src/Ndt7/Tests/HandlerTests.antt =====
-- Runs of the ndt7 handler, its parameters and its result files.
use ndt_server.Ndt7.Labels.Requests.{run_measurement-AreLabelled}
use ndt_server.Ndt7.Labels.{all_updates, bbr_update, IsLabelled}
use ndt_server.Common.{All, false, [], ◌∷◌, none, some, Bytes, codes, ok, err, whole_numbers}
use ndt_server.Ndt7.Handler.Trace.{IsBalanced, run_measurement-IsBalanced}
use ndt_server.Ndt7.Handler.{returned, Request, run_measurement}
use ndt_server.Ndt7.Query.{Parameter}
use ndt_server.Ndt7.Spec.{subtest_download, sec_web_socket_protocol}
use ndt_server.Ndt7.Tests.{one_byte, download_outside}
use ndt_server.Netx.{tcp_addr, plain_conn, conn_addr}

abbrev parameter : Bytes → Bytes → Parameter
parameter n v = record { name = n; value = v; more = [] }

abbrev os : Parameter
os = parameter (codes "os") (codes "linux")

abbrev request : Request
request = record {
  values = os ∷ [];
  websocket_protocol = sec_web_socket_protocol;
  upgrade = none;
  underlying = plain_conn 0;
  remote_addr = conn_addr 0 (tcp_addr (codes "10.0.0.2") 5000);
  local_addr = conn_addr 0 (tcp_addr (codes "10.0.0.1") 443);
  local_string = codes "10.0.0.1:443";
  cookie_uuid = ok (codes "u");
  fallback_uuid = err (codes "time");
  start_time = 1;
  end_time = 2;
  download_script = download_outside;
  upload_script = record {
    begin = 1;
    finish = 2;
    prepared = none;
    write_deadline = none;
    read_deadline = none;
    arrivals = [];
    turns = [];
  };
  subtest_ends = returned;
  is_monitoring = false;
}

run_measurement-IsBalanced_example :
    let (fx, e) = run_measurement whole_numbers one_byte [] subtest_download request in
    IsBalanced fx e
run_measurement-IsBalanced_example =
    run_measurement-IsBalanced whole_numbers one_byte [] subtest_download request

run_measurement-AreLabelled_example :
    All IsLabelled
      (all_updates (run_measurement whole_numbers one_byte [] subtest_download request).0)
    × IsLabelled (bbr_update (some (codes "not supported")))
run_measurement-AreLabelled_example =
    run_measurement-AreLabelled whole_numbers one_byte [] subtest_download request
      (some (codes "not supported"))
