-- ===== src/Ndt7/Spec.antt =====
-- ndt7/spec/spec.go: the constants of the specification. Durations are in milliseconds.
use ndt_server.Common.{ℕ, ◌^◌, ◌*◌, List, [], ◌∷◌, Bytes, codes}

abbrev pub download_url_path : Bytes
download_url_path = codes "/ndt/v7/download"

abbrev pub upload_url_path : Bytes
upload_url_path = codes "/ndt/v7/upload"

abbrev pub sec_web_socket_protocol : Bytes
sec_web_socket_protocol = codes "net.measurementlab.ndt.v7"

abbrev pub max_message_size : ℕ
max_message_size = 2 ^ 24

abbrev pub max_scaled_message_size : ℕ
max_scaled_message_size = 2 ^ 20

abbrev pub valid_early_exit_values : List Bytes
valid_early_exit_values = codes "250" ∷ []

abbrev pub early_exit_parameter_name : Bytes
early_exit_parameter_name = codes "early_exit"

abbrev pub default_websocket_buffer_size : ℕ
default_websocket_buffer_size = 2 ^ 20

abbrev pub scaling_fraction : ℕ
scaling_fraction = 16

abbrev pub average_poisson_sampling_interval : ℕ
average_poisson_sampling_interval = 250

abbrev pub min_poisson_sampling_interval : ℕ
min_poisson_sampling_interval = 25

abbrev pub max_poisson_sampling_interval : ℕ
max_poisson_sampling_interval = 625

abbrev pub default_runtime : ℕ
default_runtime = 10 * 1000

abbrev pub max_runtime : ℕ
max_runtime = 15 * 1000

-- `SubtestKind` holds one of these two strings.
pub data SubtestKind : Type 0 where
  subtest_download subtest_upload : SubtestKind

abbrev pub kind_string : SubtestKind → Bytes
kind_string subtest_download = codes "download"
kind_string subtest_upload = codes "upload"
