-- ===== src/Ndt5/Labels.antt =====
-- The metrics of ndt5 and the labels that are declared for them (ndt5/metrics/metrics.go, metrics/metrics.go).
pub mod Selections
use ndt_server.Common.{append_assoc, ◌≡◌, refl, ◌⊎◌, true, List, [], ◌∷◌, ◌++◌, Bytes, codes}
use ndt_server.Ndt5.C2s.{error_counted, test_conn_closed}
use ndt_server.Ndt5.C2s
use ndt_server.Ndt5.Events.{
  Effect, active_inc, active_dec, client_test_error, test_requested, suites_requested,
  rate_observed, result_counted, in_test, meta_error, meta_values_observed, record_saved,
  conn_closed, panic_counted, control_counted, duration_observed,
}
use ndt_server.Ndt5.Panics.{is_in, okay_words}
use ndt_server.Ndt5.SingleServing
use ndt_server.Ndt5.SingleServing.{
  start_counted, stop_counted, listener_closed, http_server_closed, accept_labelled,
  connection_type_string,
}
use ndt_server.Ndt5.Suites.{join}

-- The variables of the two files; their help texts and buckets are left out.
pub data Metric : Type 0 where
  active_tests test_rate control_channel_duration control_panic_count control_count : Metric
  client_requested_test_suites client_requested_tests client_test_results : Metric
  client_test_errors submitted_meta_values : Metric
  measurement_server_start measurement_server_accept measurement_server_stop : Metric
  sniffed_reverse_proxy_count client_forwarding_timeouts : Metric

pub data LabelName : Type 0 where
  protocol direction error result suite monitoring : LabelName

-- The labels with which each is declared.
unfoldable pub label_names : Metric → List LabelName
label_names active_tests = protocol ∷ []
label_names test_rate = protocol ∷ direction ∷ monitoring ∷ []
label_names control_channel_duration = protocol ∷ []
label_names control_panic_count = protocol ∷ error ∷ []
label_names control_count = protocol ∷ result ∷ []
label_names client_requested_test_suites = protocol ∷ suite ∷ []
label_names client_requested_tests = protocol ∷ direction ∷ []
label_names client_test_results = protocol ∷ direction ∷ result ∷ []
label_names client_test_errors = protocol ∷ direction ∷ error ∷ []
label_names submitted_meta_values = []
label_names measurement_server_start = protocol ∷ []
label_names measurement_server_accept = protocol ∷ direction ∷ []
label_names measurement_server_stop = protocol ∷ []
label_names sniffed_reverse_proxy_count = []
label_names client_forwarding_timeouts = []

-- The names under which they are registered.
unfoldable pub metric_name : Metric → Bytes
metric_name active_tests = codes "ndt_active_tests"
metric_name test_rate = codes "ndt_test_rate_mbps"
metric_name control_channel_duration = codes "ndt5_control_channel_duration"
metric_name control_panic_count = codes "ndt5_control_panic_total"
metric_name control_count = codes "ndt5_control_total"
metric_name client_requested_test_suites = codes "ndt5_client_requested_suites_total"
metric_name client_requested_tests = codes "ndt5_client_test_requested_total"
metric_name client_test_results = codes "ndt5_client_test_results_total"
metric_name client_test_errors = codes "ndt5_client_test_errors_total"
metric_name submitted_meta_values = codes "ndt5_submitted_meta_values"
metric_name measurement_server_start = codes "ndt5_measurementserver_start_total"
metric_name measurement_server_accept = codes "ndt5_measurementserver_accept_total"
metric_name measurement_server_stop = codes "ndt5_measurementserver_stop_total"
metric_name sniffed_reverse_proxy_count = codes "ndt5_sniffed_ws_total"
metric_name client_forwarding_timeouts = codes "ndt5_forwarding_timeouts_total"

-- An update of a metric, by `WithLabelValues` of these values if it has labels.
pub record Update : Type 0 where
  pub metric : Metric
  pub values : List Bytes

abbrev of_test : Bytes → Bytes → C2s.Effect → List Update
of_test proto d (error_counted l) =
    record { metric = client_test_errors; values = proto ∷ d ∷ codes l ∷ [] } ∷ []
of_test proto d test_conn_closed = []

-- The updates of an effect, by the label of the connection's type and the value of `isMon`.
unfoldable pub updates : {F : Type 0} → Bytes → Bytes → Effect F → List Update
updates proto mon active_inc = record { metric = active_tests; values = proto ∷ [] } ∷ []
updates proto mon active_dec = record { metric = active_tests; values = proto ∷ [] } ∷ []
updates proto mon (client_test_error d l) =
    record { metric = client_test_errors; values = proto ∷ d ∷ l ∷ [] } ∷ []
updates proto mon (test_requested d) =
    record { metric = client_requested_tests; values = proto ∷ d ∷ [] } ∷ []
updates proto mon (suites_requested b) =
    record { metric = client_requested_test_suites; values = proto ∷ b ∷ [] } ∷ []
updates proto mon (rate_observed d x) =
    record { metric = test_rate; values = proto ∷ d ∷ mon ∷ [] } ∷ []
updates proto mon (result_counted d l) =
    record { metric = client_test_results; values = proto ∷ d ∷ l ∷ [] } ∷ []
updates proto mon (in_test d x) = of_test proto d x
updates proto mon (meta_error l) =
    record { metric = client_test_errors; values = proto ∷ codes "meta" ∷ codes l ∷ [] } ∷ []
updates proto mon (meta_values_observed n) =
    record { metric = submitted_meta_values; values = [] } ∷ []
updates proto mon (record_saved r) = []
updates proto mon conn_closed = []
updates proto mon (panic_counted l) =
    record { metric = control_panic_count; values = proto ∷ l ∷ [] } ∷ []
updates proto mon (control_counted l) =
    record { metric = control_count; values = proto ∷ l ∷ [] } ∷ []
updates proto mon (duration_observed d) =
    record { metric = control_channel_duration; values = proto ∷ [] } ∷ []

-- The updates of a single-serving server, which label the protocol by its string.
unfoldable pub serving_updates : SingleServing.Effect → List Update
serving_updates (start_counted k) =
    record { metric = measurement_server_start; values = connection_type_string k ∷ [] } ∷ []
serving_updates (stop_counted k) =
    record { metric = measurement_server_stop; values = connection_type_string k ∷ [] } ∷ []
serving_updates listener_closed = []
serving_updates http_server_closed = []
serving_updates (accept_labelled k d) =
    record { metric = measurement_server_accept; values = connection_type_string k ∷ d ∷ [] } ∷ []

unfoldable pub all_updates : {F : Type 0} → Bytes → Bytes → List (Effect F) → List Update
all_updates proto mon [] = []
all_updates proto mon (x ∷ fx) = updates proto mon x ++ all_updates proto mon fx

pub all_updates-append :
    {F : Type 0} (proto mon : Bytes) (xs ys : List (Effect F))
    → all_updates proto mon (xs ++ ys) ≡ all_updates proto mon xs ++ all_updates proto mon ys
unfolding all_updates
all_updates-append proto mon [] ys = refl
all_updates-append proto mon (x ∷ xs) ys =
    rw (all_updates-append proto mon xs ys, append_assoc) refl

-- The words that stand as directions, as errors and as results.
abbrev pub directions : List Bytes
directions =
    codes "control" ∷ codes "mid" ∷ codes "c2s" ∷ codes "s2c" ∷ codes "sfw" ∷ codes "meta" ∷ []

abbrev pub client_errors : List Bytes
client_errors =
    codes "LoginCeremony"
    ∷ codes "TestStatus"
    ∷ codes "StartSingleServingServer"
    ∷ codes "TestPrepare"
    ∷ codes "ServeOnce"
    ∷ codes "TestStart"
    ∷ codes "Drain"
    ∷ codes "EarlyExit"
    ∷ codes "TestMsg"
    ∷ codes "web100Metrics"
    ∷ codes "TestMsgSend"
    ∷ codes "TestMsgRcv"
    ∷ codes "SendMetricsLegacy"
    ∷ codes "SendMetricsArchival"
    ∷ codes "TestFinalize"
    ∷ codes "context"
    ∷ codes "ReceiveMessage"
    ∷ []

abbrev pub results : List Bytes
results =
    codes "okay"
    ∷ codes "panic"
    ∷ codes "okay-with-rate"
    ∷ codes "okay-without-rate"
    ∷ codes "error-with-rate"
    ∷ codes "error-without-rate"
    ∷ []

-- Some of the names, in their order.
pub data IsSelection : List Bytes → List Bytes → Type 0 where
  done : IsSelection [] []
  skips : {ws ns : List Bytes} (n : Bytes) → IsSelection ws ns → IsSelection ws (n ∷ ns)
  takes : {ws ns : List Bytes} (n : Bytes) → IsSelection ws ns → IsSelection (n ∷ ws) (n ∷ ns)

abbrev pub optional_suites : List Bytes
optional_suites = codes "mid" ∷ codes "c2s" ∷ codes "s2c" ∷ codes "sfw" ∷ codes "meta" ∷ []

-- The values that a label may have, finitely many for each connection type and each value of `isMon`.
abbrev pub IsValue : Bytes → Bytes → LabelName → Bytes → Type 0
IsValue proto mon protocol v = v ≡ proto
IsValue proto mon direction v = is_in v directions ≡ true
IsValue proto mon error v =
    (is_in v client_errors ≡ true) ⊎ (is_in v okay_words ≡ true) ⊎ (v ≡ codes "panic")
IsValue proto mon result v = is_in v results ≡ true
IsValue proto mon suite v =
    (ws : List Bytes) × (v ≡ join (codes "-") (codes "status" ∷ ws))
    × IsSelection ws optional_suites
IsValue proto mon monitoring v = v ≡ mon

-- As many values as labels, each of them one that its label may have.
abbrev pub AreValues : Bytes → Bytes → List LabelName → List Bytes → Type 0
AreValues proto mon [] [] = Unit
AreValues proto mon [] (v ∷ vs) = ⊥
AreValues proto mon (n ∷ ns) [] = ⊥
AreValues proto mon (n ∷ ns) (v ∷ vs) = IsValue proto mon n v × AreValues proto mon ns vs

abbrev pub IsLabelled : Bytes → Bytes → Update → Type 0
IsLabelled proto mon u = AreValues proto mon (label_names u.metric) u.values
