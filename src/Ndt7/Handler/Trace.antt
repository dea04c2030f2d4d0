-- ===== src/Ndt7/Handler/Trace.antt =====
-- What every trace of the handler has, whichever way it ends (ndt7/handler/handler.go).
use ndt_server.Common.{
  ℕ, ◌+◌, ◌≤◌, ◌≡◌, refl, ◌⊎◌, inl, inr, ◌↔◌, Bool, true, false, List, [], ◌∷◌, Option, none, some,
  Bytes, Error, codes, Result, ok, err, equal, if◌then◌else◌, arith, Float,
}
use ndt_server.Ndt7.Handler.{
  Request, Effect, bad_request, connection_counted, flow_created, test_counted, rate_observed,
  result_saved, flow_deleted, conn_closed, conn_label, run_subtest, count_test, measured,
  run_measurement, setup_conn, setup_result, get_data, with_result, with_data, with_conn,
  with_params, if_upgraded, Ndt7Result, SockId, filled_in, new_data, Ending, returned, panicked,
  exited, finish,
}
use ndt_server.Ndt7.Model.{Measurement, NameValue, ArchivalData, Params}
use ndt_server.Ndt7.Query.{validate_early_exit}
use ndt_server.Ndt7.Spec.{SubtestKind, sec_web_socket_protocol}
use ndt_server.Netx.{Outcome, returns, panics, exits, to_conn_info, get_uuid}

-- The number of effects that a test picks.
unfoldable pub count : {F : Type 0} → (Effect F → Bool) → List (Effect F) → ℕ
count is [] = 0
count is (x ∷ fx) = (if is x then 1 else 0) + count is fx

abbrev pub is_refusal : {F : Type 0} → Effect F → Bool
is_refusal bad_request = true
is_refusal (connection_counted k s) = false
is_refusal (flow_created t u i) = false
is_refusal (test_counted p k l) = false
is_refusal (rate_observed p k m x) = false
is_refusal (result_saved u k r) = false
is_refusal (flow_deleted t u) = false
is_refusal conn_closed = false

abbrev pub is_connection : {F : Type 0} → Effect F → Bool
is_connection bad_request = false
is_connection (connection_counted k s) = true
is_connection (flow_created t u i) = false
is_connection (test_counted p k l) = false
is_connection (rate_observed p k m x) = false
is_connection (result_saved u k r) = false
is_connection (flow_deleted t u) = false
is_connection conn_closed = false

abbrev pub is_created : {F : Type 0} → Effect F → Bool
is_created bad_request = false
is_created (connection_counted k s) = false
is_created (flow_created t u i) = true
is_created (test_counted p k l) = false
is_created (rate_observed p k m x) = false
is_created (result_saved u k r) = false
is_created (flow_deleted t u) = false
is_created conn_closed = false

abbrev pub is_deleted : {F : Type 0} → Effect F → Bool
is_deleted bad_request = false
is_deleted (connection_counted k s) = false
is_deleted (flow_created t u i) = false
is_deleted (test_counted p k l) = false
is_deleted (rate_observed p k m x) = false
is_deleted (result_saved u k r) = false
is_deleted (flow_deleted t u) = true
is_deleted conn_closed = false

abbrev pub is_saved : {F : Type 0} → Effect F → Bool
is_saved bad_request = false
is_saved (connection_counted k s) = false
is_saved (flow_created t u i) = false
is_saved (test_counted p k l) = false
is_saved (rate_observed p k m x) = false
is_saved (result_saved u k r) = true
is_saved (flow_deleted t u) = false
is_saved conn_closed = false

-- If the process does not end, a flow that is announced is ended, and its result saved, once each; if it does, there
-- is at most one announcement, and neither an end nor a result.
abbrev pub IsBalanced : {F : Type 0} → List (Effect F) → Ending → Type 0
IsBalanced fx returned =
    (count is_deleted fx ≡ count is_created fx) × (count is_saved fx ≡ count is_created fx)
IsBalanced fx panicked =
    (count is_deleted fx ≡ count is_created fx) × (count is_saved fx ≡ count is_created fx)
IsBalanced fx exited =
    (count is_deleted fx ≡ 0) × (count is_saved fx ≡ 0) × (count is_created fx ≤ 1)

-- One more effect that is neither an announcement, nor an end, nor a result.
IsBalanced-other :
    {F : Type 0} (x : Effect F) (fx : List (Effect F)) (e : Ending)
    → is_created x ≡ false
    → is_deleted x ≡ false
    → is_saved x ≡ false
    → IsBalanced fx e
    → IsBalanced (x ∷ fx) e
unfolding count
IsBalanced-other x fx returned a b c h = ground arith
IsBalanced-other x fx panicked a b c h = ground arith
IsBalanced-other x fx exited a b c h = ground arith

refusals_iff :
    {p : Params} {n : ℕ} (same : Bool)
    → n ≡ (if same then 0 else 1)
    → (n ≡ 1) ↔ (((e : Error) × (◌≡◌ {A = Result Params} (ok p) (err e))) ⊎ (same ≡ false))
refusals_iff true h =
    (λ k. ground arith, λ k. elim k [ inl (e, q) ↦ ground arith | inr q ↦ ground arith ])
refusals_iff false h = (λ k. inr refl, λ k. h)

module _ (fl : Float) (decode : Bytes → Option Measurement) (server_metadata : List NameValue) where
  open fl use {F, is_positive}

  -- From the result on: balanced, and neither a count of the connection nor a refusal.
  abbrev IsServed : List (Effect F) × Ending → Type 0
  IsServed (fx, e) = IsBalanced fx e × (count is_connection fx ≡ 0) × (count is_refusal fx ≡ 0)

  -- The announcement, and what the subtest leaves, by how it ends.
  finish-IsServed :
      (e : Ending) (kind : SubtestKind) (proto : Bytes) (mon : Bool) (o : Option Error) (rate : F)
      (start end : ℕ) (uuid : Bytes) (id : SockId) (res : Ndt7Result)
      → let (fx, ending) =
          finish fl decode server_metadata e
            (count_test fl kind proto mon o rate)
            (result_saved uuid kind res ∷ flow_deleted end uuid ∷ conn_closed ∷ []) in
        IsServed (flow_created start uuid id ∷ fx, ending)
  unfolding count_test count
  finish-IsServed returned kind proto mon o rate start end uuid id res = ground arith
  finish-IsServed panicked kind proto mon o rate start end uuid id res = ground arith
  finish-IsServed exited kind proto mon o rate start end uuid id res = ground arith

  with_result-IsServed :
      (kind : SubtestKind) (p : Params) (r : Request) (d : ArchivalData)
      (o : Outcome (Ndt7Result × SockId))
      → IsServed (with_result fl decode server_metadata kind p r d o)
  unfolding count measured
  with_result-IsServed kind p r d panics = ground arith
  with_result-IsServed kind p r d exits = ground arith
  with_result-IsServed kind p r d (returns (result, id)) =
      let (e, rate, result') = run_subtest fl decode server_metadata kind p r d result in
      finish-IsServed r.subtest_ends kind (conn_label r.local_string) r.is_monitoring e rate
        result.start_time r.end_time d.uuid id (record result' { end_time = r.end_time })

  with_data-IsBalanced :
      (kind : SubtestKind) (p : Params) (r : Request) (o : Outcome (Result ArchivalData))
      → let (fx, e) = with_data fl decode server_metadata kind p r o in
        IsBalanced fx e × (count is_refusal fx ≡ 0)
  unfolding count
  with_data-IsBalanced kind p r panics = ground arith
  with_data-IsBalanced kind p r exits = ground arith
  with_data-IsBalanced kind p r (returns (err e)) = ground arith
  with_data-IsBalanced kind p r (returns (ok d)) =
      let d' = filled_in fl decode server_metadata r d in
      let o = setup_result r.start_time r.remote_addr r.local_addr in
      let (fx, e) = with_result fl decode server_metadata kind p r d' o in
      let (balanced, none_counted, none_refused) = with_result-IsServed kind p r d' o in
      (
        IsBalanced-other (connection_counted kind (codes "result")) fx e refl refl refl balanced,
        omega (arith, none_refused),
      )

  with_conn-IsBalanced :
      (kind : SubtestKind) (p : Params) (r : Request) (c : Bool × Bool)
      → let (fx, e) = with_conn fl decode server_metadata kind p r c in IsBalanced fx e
  unfolding count
  with_conn-IsBalanced kind p r (true, refused) =
      (with_data-IsBalanced kind p r (get_data r.underlying r.cookie_uuid r.fallback_uuid)).0
  with_conn-IsBalanced kind p r (false, refused) = ground arith

  with_params-IsBalanced :
      (kind : SubtestKind) (r : Request) (v : Result Params)
      → let (fx, e) = with_params fl decode server_metadata kind r v in IsBalanced fx e
  unfolding count
  with_params-IsBalanced kind r (err e) = ground arith
  with_params-IsBalanced kind r (ok p) = with_conn-IsBalanced kind p r (setup_conn r)

  with_conn-refusals :
      (kind : SubtestKind) (p : Params) (r : Request) (u : Option Error) (same : Bool)
      → count is_refusal
          (with_conn fl decode server_metadata kind p r
            (if same then (if_upgraded u, false) else (false, true))).0
        ≡ (if same then 0 else 1)
  unfolding count
  with_conn-refusals kind p r none true =
      (with_data-IsBalanced kind p r (get_data r.underlying r.cookie_uuid r.fallback_uuid)).1
  with_conn-refusals kind p r (some e) true = refl
  with_conn-refusals kind p r u false = refl

  with_params-refusals :
      (kind : SubtestKind) (r : Request) (v : Result Params)
      → (count is_refusal (with_params fl decode server_metadata kind r v).0 ≡ 1) ↔ (
          ((e : Error) × (v ≡ err e))
          ⊎ (equal r.websocket_protocol sec_web_socket_protocol ≡ false))
  unfolding count setup_conn
  with_params-refusals kind r (err e) = (λ h. inl (e, refl), λ h. ground arith)
  with_params-refusals kind r (ok p) =
      refusals_iff (equal r.websocket_protocol sec_web_socket_protocol)
        (with_conn-refusals kind p r r.upgrade (equal r.websocket_protocol sec_web_socket_protocol))

  -- However the handling of a request ends, if it returns, with an error or without, or panics, in the subtest or
  -- before it: a flow that was announced has its end announced and its result saved, once each. If the process
  -- ends before the subtest or in it, at most one flow was announced, no end is announced and no result is saved.
  pub run_measurement-IsBalanced :
      (kind : SubtestKind) (r : Request)
      → let (fx, e) = run_measurement fl decode server_metadata kind r in IsBalanced fx e
  unfolding run_measurement
  run_measurement-IsBalanced kind r = with_params-IsBalanced kind r (validate_early_exit r.values)

  -- The response is Bad Request exactly when the early exit is invalid or the subprotocol is not that
  -- of ndt7.
  pub run_measurement_refuses_iff :
      (kind : SubtestKind) (r : Request)
      → (count is_refusal (run_measurement fl decode server_metadata kind r).0 ≡ 1) ↔ (
          ((e : Error) × (validate_early_exit r.values ≡ err e))
          ⊎ (equal r.websocket_protocol sec_web_socket_protocol ≡ false))
  unfolding run_measurement
  run_measurement_refuses_iff kind r = with_params-refusals kind r (validate_early_exit r.values)

  with_conn-connections :
      (kind : SubtestKind) (p : Params) (r : Request) (i : ℕ) (uuid : Bytes) (u : Option Error)
      (same : Bool)
      → get_data r.underlying r.cookie_uuid r.fallback_uuid ≡ returns (ok (new_data uuid))
      → count is_connection
          (with_conn fl decode server_metadata kind p r
            (if same then (if_upgraded u, false) else (false, true))).0
        ≡ 1
  unfolding count
  with_conn-connections kind p r i uuid none true g =
      let d = filled_in fl decode server_metadata r (new_data uuid) in
      let (balanced, none_counted, none_refused) =
        with_result-IsServed kind p r d (setup_result r.start_time r.remote_addr r.local_addr) in
      rw (g, none_counted)
  with_conn-connections kind p r i uuid (some e) true g = refl
  with_conn-connections kind p r i uuid u false g = refl

  -- A request whose parameters are valid, on a connection that leads to a `ConnInfo` with a UUID, is
  -- counted once, whether the upgrade succeeds or not and however the subtest ends.
  pub run_measurement_counted :
      (kind : SubtestKind) (r : Request) (p : Params) (i : ℕ) (uuid : Bytes)
      → validate_early_exit r.values ≡ ok p
      → to_conn_info r.underlying ≡ returns (some i)
      → get_uuid r.cookie_uuid r.fallback_uuid ≡ returns uuid
      → count is_connection (run_measurement fl decode server_metadata kind r).0 ≡ 1
  unfolding run_measurement get_data setup_conn
  run_measurement_counted kind r p i uuid v c u =
      let g : get_data r.underlying r.cookie_uuid r.fallback_uuid ≡ returns (ok (new_data uuid)) =
        rw (c, u) in
      rw v (
        with_conn-connections kind p r i uuid r.upgrade
          (equal r.websocket_protocol sec_web_socket_protocol) g)
