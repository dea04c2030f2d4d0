-- ===== src/Ndt7/Labels/Requests.antt =====
-- The labels of the metrics that the handling of an ndt7 request updates (ndt7/handler/handler.go).
use ndt_server.Common.{
  ℕ, ◌≡◌, refl, Bool, true, false, List, [], ◌∷◌, ◌++◌, Option, none, some, Bytes, Error, Result,
  ok, err, Float, All, All-append, Bool-cases, inl, inr, ends_with, codes, append_assoc, equal,
}
use ndt_server.Metrics.{get_result_label}
use ndt_server.Ndt5.Panics.{is_in}
use ndt_server.Ndt7.Handler.{
  conn_label, count_test, run_subtest, finish, measured, with_result, with_data, with_conn,
  with_params, run_measurement, setup_conn, setup_result, get_data, filled_in,
}
use ndt_server.Ndt7.Labels.{
  updates, all_updates, bbr_update, label_names, words, client_test_results, direction, protocol,
  result, IsLabelled,
}
use ndt_server.Ndt7.Measurer.{bbr_labels}
use ndt_server.Ndt7.Model.{Measurement, NameValue, ArchivalData, Params}
use ndt_server.Ndt7.Query.{validate_early_exit}
use ndt_server.Ndt7.Requests.{
  Ending, returned, panicked, exited, Request, Effect, SockId, Ndt7Result, rate_observed,
  result_saved, flow_deleted, conn_closed,
}
use ndt_server.Ndt7.Spec.{SubtestKind, subtest_download, subtest_upload, kind_string}
use ndt_server.Netx.{Outcome, returns, panics, exits}

abbrev AreLabelled : {F : Type 0} → List (Effect F) → Type 0
AreLabelled fx = All IsLabelled (all_updates fx)

all_updates-append :
    {F : Type 0} (xs ys : List (Effect F))
    → all_updates (xs ++ ys) ≡ all_updates xs ++ all_updates ys
unfolding all_updates
all_updates-append [] ys = refl
all_updates-append (x ∷ xs) ys = rw (all_updates-append xs ys, append_assoc) refl

AreLabelled-append :
    {F : Type 0} (xs ys : List (Effect F))
    → AreLabelled xs
    → AreLabelled ys
    → AreLabelled (xs ++ ys)
AreLabelled-append xs ys h k =
    rw (all_updates-append xs ys) (All-append IsLabelled (all_updates xs) (all_updates ys) h k)

pub conn_label_known :
    (local : Bytes) → is_in (conn_label local) (words client_test_results protocol) ≡ true
unfolding conn_label equal
conn_label_known local = elim (Bool-cases (ends_with (codes "443") local)) [
  | inl t ↦ rw t refl
  | inr f ↦ elim (Bool-cases (ends_with (codes "80") local)) [
    | inl t ↦ rw (f, t) refl
    | inr g ↦ rw (f, g) refl
  ]
]

pub kind_known :
    (kind : SubtestKind) → is_in (kind_string kind) (words client_test_results direction) ≡ true
unfolding equal
kind_known subtest_download = refl
kind_known subtest_upload = refl

module _ (fl : Float) (decode : Bytes → Option Measurement) (server_metadata : List NameValue) where
  open fl use {F, is_zero, is_positive}

  result_known :
      (e : Option Error) (rate : F)
      → is_in (get_result_label fl e rate) (words client_test_results result) ≡ true
  unfolding get_result_label equal
  result_known none rate = elim (Bool-cases (is_zero rate)) [
    | inl t ↦ rw t refl
    | inr f ↦ rw f refl
  ]
  result_known (some e) rate = elim (Bool-cases (is_zero rate)) [
    | inl t ↦ rw t refl
    | inr f ↦ rw f refl
  ]

  rate-AreLabelled :
      (kind : SubtestKind) (proto : Bytes) (mon : Bool) (rate : F)
      → is_in proto (words client_test_results protocol) ≡ true
      → AreLabelled {F = F} (rate_observed proto kind mon rate ∷ [])
  unfolding all_updates updates label_names equal
  rate-AreLabelled kind proto true rate h = ((h, (kind_known kind, (refl, tt))), tt)
  rate-AreLabelled kind proto false rate h = ((h, (kind_known kind, (refl, tt))), tt)

  count_test-AreLabelled :
      (kind : SubtestKind) (proto : Bytes) (mon : Bool) (e : Option Error) (rate : F)
      → is_in proto (words client_test_results protocol) ≡ true
      → AreLabelled (count_test fl kind proto mon e rate)
  unfolding count_test all_updates updates label_names
  count_test-AreLabelled kind proto mon e rate h = elim (Bool-cases (is_positive rate)) [
    | inl t ↦
        rw t (
          (h, (kind_known kind, (result_known e rate, tt))),
          rate-AreLabelled kind proto mon rate h,
        )
    | inr f ↦ rw f ((h, (kind_known kind, (result_known e rate, tt))), tt)
  ]

  finish-AreLabelled :
      (e : Ending) (counted : List (Effect F)) (u : Bytes) (kind : SubtestKind) (res : Ndt7Result)
      (end : ℕ)
      → AreLabelled counted
      → AreLabelled
          (finish fl decode server_metadata e counted
            (result_saved u kind res ∷ flow_deleted end u ∷ conn_closed ∷ [])).0
  unfolding all_updates updates
  finish-AreLabelled returned counted u kind res end h = AreLabelled-append {F = F} counted _ h tt
  finish-AreLabelled panicked counted u kind res end h = tt
  finish-AreLabelled exited counted u kind res end h = tt

  with_result-AreLabelled :
      (kind : SubtestKind) (p : Params) (r : Request) (d : ArchivalData)
      (o : Outcome (Ndt7Result × SockId))
      → AreLabelled (with_result fl decode server_metadata kind p r d o).0
  unfolding measured all_updates updates
  with_result-AreLabelled kind p r d panics = tt
  with_result-AreLabelled kind p r d exits = tt
  with_result-AreLabelled kind p r d (returns (res, id)) =
      let (e, rate, res') = run_subtest fl decode server_metadata kind p r d res in
      let proto = conn_label r.local_string in
      finish-AreLabelled r.subtest_ends (count_test fl kind proto r.is_monitoring e rate) d.uuid
        kind (record res' { end_time = r.end_time }) r.end_time
        (count_test-AreLabelled kind proto r.is_monitoring e rate (conn_label_known r.local_string))

  with_data-AreLabelled :
      (kind : SubtestKind) (p : Params) (r : Request) (o : Outcome (Result ArchivalData))
      → AreLabelled (with_data fl decode server_metadata kind p r o).0
  unfolding all_updates updates label_names equal
  with_data-AreLabelled kind p r panics = tt
  with_data-AreLabelled kind p r exits = tt
  with_data-AreLabelled kind p r (returns (err e)) = ((kind_known kind, (refl, tt)), tt)
  with_data-AreLabelled kind p r (returns (ok d)) = (
    (kind_known kind, (refl, tt)),
    with_result-AreLabelled kind p r (filled_in fl decode server_metadata r d)
        (setup_result r.start_time r.remote_addr r.local_addr),
  )

  with_conn-AreLabelled :
      (kind : SubtestKind) (p : Params) (r : Request) (c : Bool × Bool)
      → AreLabelled (with_conn fl decode server_metadata kind p r c).0
  unfolding all_updates updates label_names equal
  with_conn-AreLabelled kind p r (true, refused) =
      with_data-AreLabelled kind p r (get_data r.underlying r.cookie_uuid r.fallback_uuid)
  with_conn-AreLabelled kind p r (false, true) = ((kind_known kind, (refl, tt)), tt)
  with_conn-AreLabelled kind p r (false, false) = ((kind_known kind, (refl, tt)), tt)

  with_params-AreLabelled :
      (kind : SubtestKind) (r : Request) (v : Result Params)
      → AreLabelled (with_params fl decode server_metadata kind r v).0
  unfolding all_updates updates
  with_params-AreLabelled kind r (err e) = tt
  with_params-AreLabelled kind r (ok p) = with_conn-AreLabelled kind p r (setup_conn r)

  bbr_update-IsLabelled : (enabled : Option Error) → IsLabelled (bbr_update enabled)
  unfolding bbr_update bbr_labels label_names equal
  bbr_update-IsLabelled none = (refl, (tt, tt))
  bbr_update-IsLabelled (some e) = (refl, (tt, tt))

  -- However the handling of a request ends, and however BBR is enabled for it or is not: each update of a metric that
  -- `runMeasurement` makes itself, and the update of `BBREnabled` by the measurer, has as many values as the
  -- metric has declared labels, so that `WithLabelValues` does not panic; and each value is one of the finitely
  -- many words of its label, except the error of `BBREnabled`, which may be any text. The errors that its sender
  -- and its receiver count are not among these updates.
  pub run_measurement-AreLabelled :
      (kind : SubtestKind) (r : Request) (enabled : Option Error)
      → All IsLabelled (all_updates (run_measurement fl decode server_metadata kind r).0)
        × IsLabelled (bbr_update enabled)
  unfolding run_measurement
  run_measurement-AreLabelled kind r enabled =
      (with_params-AreLabelled kind r (validate_early_exit r.values), bbr_update-IsLabelled enabled)
