-- ===== src/Ndt5/Events.antt =====
-- What the handling of an ndt5 control connection records and does (ndt5/ndt5.go, ndt5/data/data.go).
use ndt_server.Common.{ℕ, List, Option, String, Bytes}
use ndt_server.Ndt5.C2s
use ndt_server.Ndt5.S2c
use ndt_server.Ndt7.Model.{NameValue}

-- The parts of `data.NDT5Result` that the handling sets.
pub record Ndt5Result (F : Type 0) : Type 0 where
  pub message_protocol : Bytes
  pub client_metadata : List NameValue
  pub c2s : Option (C2s.ArchivalData F)
  pub s2c : Option (S2c.ArchivalData F)

-- The gauge of active tests, the counters and the histograms, the effects of the two tests, the
-- record that `SaveData` is given, and the close of the control connection. What the single-serving servers of the
-- tests count is with `Ndt5.SingleServing`.
pub data Effect (F : Type 0) : Type 0 where
  active_inc active_dec : Effect F
  client_test_error : Bytes → Bytes → Effect F
  test_requested : Bytes → Effect F
  suites_requested : Bytes → Effect F
  rate_observed : Bytes → F → Effect F
  result_counted : Bytes → Bytes → Effect F
  in_test : Bytes → C2s.Effect → Effect F
  meta_error : String → Effect F
  meta_values_observed : ℕ → Effect F
  record_saved : Ndt5Result F → Effect F
  conn_closed : Effect F
  panic_counted : Bytes → Effect F
  control_counted : Bytes → Effect F
  duration_observed : F → Effect F
