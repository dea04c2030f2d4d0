-- ===== src/Ndt7/Labels.antt =====
-- The metrics of ndt7 and the labels that are declared for them (ndt7/metrics/metrics.go, metrics/metrics.go).
pub mod Requests
pub mod Subtests
pub mod Uploads
use ndt_server.Common.{
  ◌≡◌, true, false, Bool, List, [], ◌∷◌, ◌++◌, map, Option, String, Bytes, Error, codes,
}
use ndt_server.Ndt5.Panics.{is_in}
use ndt_server.Ndt7.Measurer.{bbr_labels}
use ndt_server.Ndt7.Receiver.{ReceiverKind, download_receiver, upload_receiver}
use ndt_server.Ndt7.Requests.{
  Effect, bad_request, connection_counted, flow_created, test_counted, rate_observed, result_saved,
  flow_deleted, conn_closed,
}
use ndt_server.Ndt7.Spec.{SubtestKind, kind_string}

-- The variables that ndt7 updates, with `BBREnabled` of ndt7/measurer/measurer.go; their help texts and buckets are left out.
pub data Metric : Type 0 where
  client_connections client_test_results client_sender_errors client_receiver_errors test_rate :
      Metric
  bbr_enabled : Metric

pub data LabelName : Type 0 where
  direction status protocol result error monitoring : LabelName

-- The labels with which each is declared.
unfoldable pub label_names : Metric → List LabelName
label_names client_connections = direction ∷ status ∷ []
label_names client_test_results = protocol ∷ direction ∷ result ∷ []
label_names client_sender_errors = protocol ∷ direction ∷ error ∷ []
label_names client_receiver_errors = protocol ∷ direction ∷ error ∷ []
label_names bbr_enabled = status ∷ error ∷ []
label_names test_rate = protocol ∷ direction ∷ monitoring ∷ []

-- The names under which they are registered.
unfoldable pub metric_name : Metric → Bytes
metric_name client_connections = codes "ndt7_client_connections_total"
metric_name client_test_results = codes "ndt7_client_test_results_total"
metric_name client_sender_errors = codes "ndt7_client_sender_errors_total"
metric_name client_receiver_errors = codes "ndt7_client_receiver_errors_total"
metric_name bbr_enabled = codes "ndt7_measurer_bbr_enabled_total"
metric_name test_rate = codes "ndt_test_rate_mbps"

-- An update of a metric, by `WithLabelValues` of these values.
pub record Update : Type 0 where
  pub metric : Metric
  pub values : List Bytes

-- `fmt.Sprintf("%t", ...)`.
abbrev bool_string : Bool → Bytes
bool_string true = codes "true"
bool_string false = codes "false"

-- The updates of an effect of `runMeasurement`.
unfoldable pub updates : {F : Type 0} → Effect F → List Update
updates bad_request = []
updates (connection_counted kind s) =
    record { metric = client_connections; values = kind_string kind ∷ s ∷ [] } ∷ []
updates (flow_created t u i) = []
updates (test_counted proto kind l) =
    record { metric = client_test_results; values = proto ∷ kind_string kind ∷ l ∷ [] } ∷ []
updates (rate_observed proto kind mon x) =
    record { metric = test_rate; values = proto ∷ kind_string kind ∷ bool_string mon ∷ [] } ∷ []
updates (result_saved u kind r) = []
updates (flow_deleted t u) = []
updates conn_closed = []

unfoldable pub all_updates : {F : Type 0} → List (Effect F) → List Update
all_updates [] = []
all_updates (x ∷ fx) = updates x ++ all_updates fx

-- An error that a sender counts.
unfoldable pub sender_update : Bytes → SubtestKind → String → Update
sender_update proto kind l = record {
  metric = client_sender_errors;
  values = proto ∷ kind_string kind ∷ codes l ∷ [];
}

-- `fmt.Sprint` of a `receiverKind`, which is an int.
abbrev pub receiver_kind_string : ReceiverKind → Bytes
receiver_kind_string download_receiver = codes "0"
receiver_kind_string upload_receiver = codes "1"

-- An error that a receiver counts.
unfoldable pub receiver_update : Bytes → ReceiverKind → String → Update
receiver_update proto k l = record {
  metric = client_receiver_errors;
  values = proto ∷ receiver_kind_string k ∷ codes l ∷ [];
}

-- The update of `BBREnabled` in `getSocketAndPossiblyEnableBBR`, by how `EnableBBR` ends.
unfoldable pub bbr_update : Option Error → Update
bbr_update e =
    let (success, errstr) = bbr_labels e in
    record { metric = bbr_enabled; values = success ∷ errstr ∷ [] }

abbrev pub sender_errors : List Bytes
sender_errors =
    codes "make-prepared-message"
    ∷ codes "set-write-deadline"
    ∷ codes "measurer-closed"
    ∷ codes "write-json"
    ∷ codes "ping-send-ticks"
    ∷ codes "measurer-closed-early"
    ∷ codes "write-prepared-message"
    ∷ []

abbrev pub receiver_errors : List Bytes
receiver_errors =
    codes "set-read-deadline"
    ∷ codes "ping-parse-ticks"
    ∷ codes "read-message-type"
    ∷ codes "wrong-message-type"
    ∷ codes "read-message"
    ∷ codes "unmarshal-client-message"
    ∷ codes "receiver-context-expired"
    ∷ []

abbrev subtests : List Bytes
subtests = codes "download" ∷ codes "upload" ∷ []

-- The values that a label of a metric may have. The direction of the receiver's errors is a number.
abbrev pub words : Metric → LabelName → List Bytes
words client_receiver_errors direction = codes "0" ∷ codes "1" ∷ []
words client_receiver_errors error = receiver_errors
words client_sender_errors error = sender_errors
words bbr_enabled status = codes "true" ∷ codes "false" ∷ []
words m direction = subtests
words m status = codes "websocket-error" ∷ codes "uuid-error" ∷ codes "result" ∷ []
words m protocol = codes "ndt7+wss" ∷ codes "ndt7+ws" ∷ codes "ndt7+unknown" ∷ []
words m result =
    codes "okay-with-rate"
    ∷ codes "okay-without-rate"
    ∷ codes "error-with-rate"
    ∷ codes "error-without-rate"
    ∷ []
words m error = []
words m monitoring = codes "true" ∷ codes "false" ∷ []

-- The error of `BBREnabled` is the text of any error.
abbrev pub IsValue : Metric → LabelName → Bytes → Type 0
IsValue bbr_enabled error v = Unit
IsValue m n v = is_in v (words m n) ≡ true

-- As many values as labels, each of them one that its label may have.
abbrev pub AreValues : Metric → List LabelName → List Bytes → Type 0
AreValues m [] [] = Unit
AreValues m [] (v ∷ vs) = ⊥
AreValues m (n ∷ ns) [] = ⊥
AreValues m (n ∷ ns) (v ∷ vs) = IsValue m n v × AreValues m ns vs

abbrev pub IsLabelled : Update → Type 0
IsLabelled u = AreValues u.metric (label_names u.metric) u.values
