-- ===== src/Metrics.antt =====
-- metrics/metrics.go: `GetResultLabel`.
use ndt_server.Common.{Bool, true, false, ◌++◌, Option, none, some, Bytes, Error, codes, Float}

abbrev pub with_err : Option Error → Bytes
with_err none = codes "okay"
with_err (some e) = codes "error"

abbrev with_result : Bool → Bytes
with_result true = codes "-without-rate"
with_result false = codes "-with-rate"

module _ (fl : Float) where
  open fl use {F, is_zero}

  unfoldable pub get_result_label : Option Error → F → Bytes
  get_result_label e rate = with_err e ++ with_result (is_zero rate)
