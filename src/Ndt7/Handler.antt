-- ===== src/Ndt7/Handler.antt =====
-- ndt7/handler/handler.go: `runMeasurement` and its helpers, with the result of data/result.go and the
-- label of ndt7/metrics/metrics.go. What the handler does to the rest of the server is a trace.
pub mod Trace
pub mod Rates
use ndt_server.Common.{
  ℕ, ◌^◌, ◌%◌, Bool, true, false, List, [], ◌∷◌, ◌++◌, Option, none, some, Bytes, Error, codes,
  Result, ok, err, equal, ends_with, ℤ, pos, negsuc, if◌then◌else◌, Float, get_last?,
}
use ndt_server.Metrics.{get_result_label}
use ndt_server.Ndt7.Download
use ndt_server.Ndt7.Model.{Measurement, TcpSample, NameValue, ArchivalData, Params}
use ndt_server.Ndt7.Query.{Parameter, validate_early_exit, append_client_metadata}
pub use ndt_server.Ndt7.Requests.{
  Ndt7Result, SockId, Ending, returned, panicked, exited, Request, Effect, bad_request,
  connection_counted, flow_created, test_counted, rate_observed, result_saved, flow_deleted,
  conn_closed,
}
use ndt_server.Ndt7.Spec.{SubtestKind, subtest_download, subtest_upload, sec_web_socket_protocol}
use ndt_server.Ndt7.Subtest.{Outside, do_download, do_upload}
use ndt_server.Ndt7.Upload
use ndt_server.Netx.{
  Outcome, returns, panics, exits, Addr, to_tcp_addr, NetConn, to_conn_info, get_uuid,
}
use ndt_server.Tcp.{TcpInfo}

unfoldable pub conn_label : Bytes → Bytes
conn_label local =
    if ends_with (codes "443") local
    then codes "ndt7+wss"
    else if ends_with (codes "80") local
    then codes "ndt7+ws"
    else codes "ndt7+unknown"

abbrev or_loopback : Option (Bytes × ℕ) → Bytes × ℕ
or_loopback (some a) = a
or_loopback none = (codes "::1", 1)

abbrev result_of : ℕ → Bytes × ℕ → Bytes × ℕ → Ndt7Result × SockId
result_of now (client_ip, client_port) (server_ip, server_port) = (
  record {
    server_ip = server_ip;
    server_port = server_port;
    client_ip = client_ip;
    client_port = client_port;
    start_time = now;
    end_time = 0;
    upload = none;
    download = none;
  },
  record {
    src_ip = server_ip;
    dst_ip = client_ip;
    s_port = server_port % 2 ^ 16;
    d_port = client_port % 2 ^ 16;
    cookie = negsuc 0;
  },
)

abbrev with_server : ℕ → Bytes × ℕ → Outcome (Option (Bytes × ℕ)) → Outcome (Ndt7Result × SockId)
with_server now client (returns a) = returns (result_of now client (or_loopback a))
with_server now client panics = panics
with_server now client exits = exits

abbrev with_client_addr : ℕ → Addr → Outcome (Option (Bytes × ℕ)) → Outcome (Ndt7Result × SockId)
with_client_addr now local (returns a) = with_server now (or_loopback a) (to_tcp_addr local)
with_client_addr now local panics = panics
with_client_addr now local exits = exits

-- `setupResult`, and the start time that `runMeasurement` then sets.
unfoldable pub setup_result : ℕ → Addr → Addr → Outcome (Ndt7Result × SockId)
setup_result now remote local = with_client_addr now local (to_tcp_addr remote)

abbrev pub new_data : Bytes → ArchivalData
new_data uuid = record {
  uuid = uuid;
  start_time = 0;
  end_time = 0;
  server_measurements = [];
  client_measurements = [];
  client_metadata = [];
  server_metadata = [];
}

abbrev data_with : Outcome Bytes → Outcome (Result ArchivalData)
data_with (returns uuid) = returns (ok (new_data uuid))
data_with panics = panics
data_with exits = exits

abbrev uuid_of : Outcome (Option ℕ) → Result Bytes → Result Bytes → Outcome (Result ArchivalData)
uuid_of (returns (some i)) cookie fallback = data_with (get_uuid cookie fallback)
uuid_of (returns none) cookie fallback = panics
uuid_of panics cookie fallback = panics
uuid_of exits cookie fallback = exits

-- `getData`; the call of `GetUUID` on a nil `ConnInfo` panics.
unfoldable pub get_data : NetConn → Result Bytes → Result Bytes → Outcome (Result ArchivalData)
get_data c cookie fallback = uuid_of (to_conn_info c) cookie fallback

abbrev if_upgraded : Option Error → Bool
if_upgraded none = true
if_upgraded (some e) = false

-- `setupConn`: whether there is a connection, and whether the response is Bad Request.
unfoldable pub setup_conn : Request → Bool × Bool
setup_conn r =
    if equal r.websocket_protocol sec_web_socket_protocol
    then (if_upgraded r.upgrade, false)
    else (false, true)

module _ (fl : Float) where
  open fl use {F, of_int, mul, div, is_positive}

  abbrev sampled_rate : (TcpInfo → ℤ) → Option TcpSample → F
  sampled_rate bytes none = of_int (pos 0)
  sampled_rate bytes (some t) =
      div (mul (of_int (pos 8)) (of_int (bytes t.linux_tcp_info))) (of_int t.elapsed_time)

  abbrev rate_of : (TcpInfo → ℤ) → Option Measurement → F
  rate_of bytes none = of_int (pos 0)
  rate_of bytes (some m) = sampled_rate bytes m.tcp_info

  unfoldable pub up_rate : List Measurement → F
  up_rate ms = rate_of (λ t. t.bytes_received) (get_last? ms)

  unfoldable pub down_rate : List Measurement → F
  down_rate ms = rate_of (λ t. t.bytes_acked) (get_last? ms)

  -- What follows the subtest: the label and the rate.
  unfoldable pub count_test : SubtestKind → Bytes → Bool → Option Error → F → List (Effect F)
  count_test kind proto mon e rate =
      test_counted proto kind (get_result_label fl e rate)
      ∷ (if is_positive rate then rate_observed proto kind mon rate ∷ [] else [])

  module _ (decode : Bytes → Option Measurement) (server_metadata : List NameValue) where
    -- The subtest of this kind: its error, its rate and the result with its data.
    unfoldable pub run_subtest :
        SubtestKind → Params → Request → ArchivalData → Ndt7Result → Option Error × F × Ndt7Result
    run_subtest subtest_download p r d result =
        let (e, d') = do_download decode p r.download_script d in
        (e, down_rate d'.server_measurements, record result { download = some d' })
    run_subtest subtest_upload p r d result =
        let (e, d') = do_upload decode r.upload_script d in
        (e, up_rate d'.server_measurements, record result { upload = some d' })

    -- From the subtest to the return: the deferred calls run also when it panics, but not when the process ends.
    abbrev pub finish : Ending → List (Effect F) → List (Effect F) → List (Effect F) × Ending
    finish returned counted deferred = (counted ++ deferred, returned)
    finish panicked counted deferred = (deferred, panicked)
    finish exited counted deferred = ([], exited)

    unfoldable pub measured :
        SubtestKind → Params → Request → ArchivalData → Ndt7Result → List (Effect F) × Ending
    measured kind p r d result =
        let (e, rate, result') = run_subtest kind p r d result in
        finish r.subtest_ends (count_test kind (conn_label r.local_string) r.is_monitoring e rate) (
          result_saved d.uuid kind (record result' { end_time = r.end_time })
          ∷ flow_deleted r.end_time d.uuid
          ∷ conn_closed
          ∷ [])

    abbrev pub with_result :
        SubtestKind
        → Params
        → Request
        → ArchivalData
        → Outcome (Ndt7Result × SockId)
        → List (Effect F) × Ending
    with_result kind p r d panics = (conn_closed ∷ [], panicked)
    with_result kind p r d exits = ([], exited)
    with_result kind p r d (returns (result, id)) =
        let (fx, ending) = measured kind p r d result in
        (flow_created result.start_time d.uuid id ∷ fx, ending)

    -- The data before the subtest.
    abbrev pub filled_in : Request → ArchivalData → ArchivalData
    filled_in r d = record (append_client_metadata d r.values) { server_metadata = server_metadata }

    abbrev pub with_data :
        SubtestKind → Params → Request → Outcome (Result ArchivalData) → List (Effect F) × Ending
    with_data kind p r panics = (conn_closed ∷ [], panicked)
    with_data kind p r exits = ([], exited)
    with_data kind p r (returns (err e)) =
        (connection_counted kind (codes "uuid-error") ∷ conn_closed ∷ [], returned)
    with_data kind p r (returns (ok d)) =
        let (fx, ending) =
          with_result kind p r (filled_in r d)
            (setup_result r.start_time r.remote_addr r.local_addr) in
        (connection_counted kind (codes "result") ∷ fx, ending)

    abbrev pub with_conn : SubtestKind → Params → Request → Bool × Bool → List (Effect F) × Ending
    with_conn kind p r (true, refused) =
        with_data kind p r (get_data r.underlying r.cookie_uuid r.fallback_uuid)
    with_conn kind p r (false, refused) = (
      (if refused then bad_request ∷ [] else [])
          ++ connection_counted kind (codes "websocket-error") ∷ [],
      returned,
    )

    abbrev pub with_params : SubtestKind → Request → Result Params → List (Effect F) × Ending
    with_params kind r (err e) = (bad_request ∷ [], returned)
    with_params kind r (ok p) = with_conn kind p r (setup_conn r)

    -- `runMeasurement`: the trace, and how it ends.
    unfoldable pub run_measurement : SubtestKind → Request → List (Effect F) × Ending
    run_measurement kind r = with_params kind r (validate_early_exit r.values)
