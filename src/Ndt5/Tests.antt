-- ===== src/Ndt5/Tests.antt =====
-- Runs of the ndt5 tests.
mod ControlTests
mod DrainTests
mod ServingTests
mod ServerTests
use ndt_server.Common.{
  ◌≡◌, refl, ◌↔◌, true, false, [], ◌∷◌, ◌++◌, none, some, codes, ok, ℤ, pos, itoa, format_int,
  whole_numbers,
}
use ndt_server.Ndt5.C2s.Messages.{manage_test_panics_iff}
use ndt_server.Ndt5.C2s.Outcomes.{IsReported, manage_test-IsReported}
use ndt_server.Ndt5.C2s.{TestConn, Session, returned, panicked, test_conn_closed, throughput}
use ndt_server.Ndt5.C2s
use ndt_server.Ndt5.Meta.Bounds.{IsSound, manage_test-IsSound}
use ndt_server.Ndt5.Control.Whole.{whole}
use ndt_server.Ndt5.Control.Effects.{IsWhole, handle_control_channel-IsWhole}
use ndt_server.Ndt5.Control.Messages.{greeted, dismissed}
use ndt_server.Ndt5.Control.Upload.{uploaded, with_upload, of_upload, after_login_upload}
use ndt_server.Ndt5.Control.{
  Server, handle_control_channel, Ndt5Result, after_login, no_result, requests,
}
use ndt_server.Ndt5.Meta
use ndt_server.Protocol.Kind.{encoding_string, test_prepare, test_start, test_msg, test_finalize}
use ndt_server.Ndt5.S2c.{Shown}
use ndt_server.Ndt5.Login.{logged}
use ndt_server.Ndt5.S2c
use ndt_server.Ndt5.S2c.Ends.{IsAccountedFor, manage_test-IsAccountedFor}
use ndt_server.Ndt5.S2c.Reports.{with_results, with_reports, manage_test_reports}
use ndt_server.Protocol.Metrics.{struct, field, end, number}
use ndt_server.Protocol.Delivery.{frame}
use ndt_server.Protocol.Tlv.{read_tlv_message, parse_tlv, expects}
use ndt_server.Protocol.Conn.{Conn, arrives, stream, read_message, net_read_message, read_input}
use ndt_server.Protocol.Messager.{
  tlv_messager, json_messager, conn_messager, receive_message, messager_encoding,
}
use ndt_server.Protocol.Tests.{codec, over_tcp}
use ndt_server.Tcp.{TcpInfo}
use ndt_server.Web100.{Metrics, poll_snaps}

abbrev test_conn : TestConn
test_conn = record {
  uuid = codes "t";
  server_ip = codes "10.0.0.1";
  server_port = 3002;
  client_ip = codes "10.0.0.2";
  client_port = 5000;
}

abbrev received_bytes : TcpInfo
received_bytes = record {
  rtt = 2000;
  snd_mss = 1400;
  segs_out = pos 10;
  bytes_acked = pos 0;
  bytes_received = pos 10000;
}

abbrev session : Session ℤ
session = record {
  server = ok 3002;
  served = ok test_conn;
  polls = (record { cancelled = false; info = ok received_bytes }) ∷ [];
  transfer_error = none;
  start_time = 1;
  end_time = 11;
  seconds = pos 10;
}

abbrev broken : Session ℤ
broken = record session { polls = []; transfer_error = some (codes "reset") }

tlv_over_tcp : conn_messager over_tcp ≡ some tlv_messager
unfolding conn_messager
tlv_over_tcp = refl

manage_test_panics_iff_example :
    ((C2s.manage_test whole_numbers codec broken over_tcp).0 ≡ panicked) ↔ (poll_snaps [] ≡ [])
manage_test_panics_iff_example =
    manage_test_panics_iff whole_numbers codec broken over_tcp tlv_messager 3002 test_conn
      tlv_over_tcp refl refl refl

abbrev polled : Metrics
polled = record {
  max_rtt = 2;
  min_rtt = 2;
  sum_rtt = 2;
  count_rtt = 1;
  cur_mss = 1400;
  pkts_out = 10;
  tcp_info = received_bytes;
}

manage_test-IsSound_example :
    IsSound
      (λ b. b)
      codec
      json_messager
      (Meta.manage_test
        (λ b. b)
        codec
        json_messager
        (codes "context deadline exceeded")
        (false ∷ false ∷ true ∷ [])
        over_tcp)
manage_test-IsSound_example =
    manage_test-IsSound (λ b. b) codec json_messager (codes "context deadline exceeded")
      (false ∷ false ∷ true ∷ []) over_tcp

abbrev no_fields : Shown ℤ
no_fields = record {
  of_metrics = λ w. struct (field (codes "MinRTT") (number (codes "2")) end);
  of_record = λ r. struct end;
}

abbrev download_session : S2c.Session ℤ
download_session = record {
  server = ok 3003;
  served = ok (some test_conn);
  polls = session.polls;
  start_time = 1;
  end_time = 11;
  seconds = pos 10;
}

manage_test-IsAccountedFor_example :
    IsAccountedFor whole_numbers codec no_fields
      (S2c.manage_test whole_numbers codec no_fields download_session over_tcp)
manage_test-IsAccountedFor_example =
    manage_test-IsAccountedFor whole_numbers codec no_fields download_session over_tcp tlv_messager
      tlv_over_tcp

-- The client answers with the text 9.
abbrev answering : Conn
answering = record over_tcp { inbox = stream (arrives (5 ∷ 0 ∷ 1 ∷ 57 ∷ []) ∷ []) }

-- The client asks for the c2s test and the status.
abbrev server : Server ℤ
server = record {
  login_ceremony = λ c. (logged (ok (pos 18)), c);
  c2s_session = session;
  s2c_session = download_session;
  duration = pos 12;
  context_error = codes "context deadline exceeded";
  meta_ends = [];
}
