-- ===== src/Ndt5/Control.antt =====
-- ndt5/ndt5.go: `HandleControlChannel`, which runs the tests that a client asks for. What it does to the
-- rest of the server is a trace of `Ndt5.Events`. The login is the server's, by the interface of ndt5/ndt/server.go.
pub mod Whole
pub mod Pieces
pub mod Effects
pub mod Messages
pub mod Labels
pub mod Upload
pub mod Both
use ndt_server.Common.{
  ℕ, ◌*◌, ◌/◌, ◌%◌, ◌^◌, ◌==◌, Bool, true, false, not, ◌&&◌, ◌||◌, List, [], ◌∷◌, ◌++◌, Option,
  none, some, String, Bytes, Error, codes, Result, ok, err, ℤ, pos, negsuc, equal, Float,
  if◌then◌else◌, map,
}
use ndt_server.Metrics.{get_result_label}
use ndt_server.Ndt5.C2s
use ndt_server.Ndt5.Meta
pub use ndt_server.Ndt5.Events.{
  Ndt5Result, Effect, active_inc, active_dec, client_test_error, test_requested, suites_requested,
  rate_observed, result_counted, in_test, meta_error, meta_values_observed, record_saved,
  conn_closed, panic_counted, control_counted, duration_observed,
}
use ndt_server.Ndt5.Panics.{panic_msg_to_err_type}
use ndt_server.Ndt5.S2c
use ndt_server.Ndt5.Suites.{has_bit, join, tests_to_run, requested, suites}
use ndt_server.Ndt5.Login.{Login, logged, login_panicked}
use ndt_server.Ndt7.Model.{NameValue}
use ndt_server.Protocol.Conn.{Conn}
use ndt_server.Protocol.Json.{Json}
use ndt_server.Protocol.Kind.{srv_queue, msg_login, msg_results, msg_logout, encoding_string}
use ndt_server.Protocol.Messager.{Messager, conn_messager, messager_encoding, send_message}

-- The server's login, what the tests meet, the context of the meta test, and the float64 that `Seconds` gives
-- for the time of the whole handling.
pub record Server (F : Type 0) : Type 0 where
  pub login_ceremony : Conn → Login × Conn
  pub c2s_session : C2s.Session F
  pub s2c_session : S2c.Session F
  pub context_error : Error
  pub meta_ends : List Bool
  pub duration : F

-- `panic_message` is the message with which `rtx.PanicOnError` panics, by its prefix and the error.
module _ (fl : Float) (J : Json) (shown : S2c.Shown fl.F) (trim_space : Bytes → Bytes)
    (panic_message : Bytes → Error → Bytes) where
  open fl use {F, of_int, mul, is_zero, format_4}

  -- A panic's message, if there is one, the record, the control connection and the effects.
  abbrev pub Run : Type 0
  Run = Option Bytes × Ndt5Result F × Conn × List (Effect F)

  unfoldable pub and_then : Run → (Ndt5Result F → Conn → Run) → Run
  and_then (some p, r, c, fx) k = (some p, r, c, fx)
  and_then (none, r, c, fx) k = let (p, r', c', fx') = k r c in (p, r', c', fx ++ fx')

  abbrev pub panic_on_error : Bytes → Option Error → Option Bytes
  panic_on_error prefix none = none
  panic_on_error prefix (some e) = some (panic_message prefix e)

  unfoldable pub send : Messager → ℕ → Bytes → Bytes → Ndt5Result F → Conn → Run
  send m kind b prefix r c =
      let (e, c') = send_message J m kind b c in (panic_on_error prefix e, r, c', [])

  abbrev pub nil_dereference : Bytes
  nil_dereference = codes "runtime error: invalid memory address or nil pointer dereference"

  abbrev pub in_tests : Bytes → List C2s.Effect → List (Effect F)
  in_tests direction [] = []
  in_tests direction (x ∷ fx) = in_test direction x ∷ in_tests direction fx

  -- The rate is observed unless it is zero, and the test is counted by its label.
  unfoldable pub observed : Bytes → Option Error → F → List (Effect F)
  observed name e rate =
      (if is_zero rate then [] else rate_observed name rate ∷ [])
      ++ result_counted name (get_result_label fl e rate) ∷ []

  abbrev pub after_c2s : Ndt5Result F → C2s.Run fl J → Run
  after_c2s r (C2s.panicked, c, fx) = (some nil_dereference, r, c, in_tests (codes "c2s") fx)
  after_c2s r (C2s.returned d e, c, fx) = (
    panic_on_error (codes "C2S - Could not run c2s test") e,
    record r { c2s = some d },
    c,
    in_tests (codes "c2s") fx ++ observed (codes "c2s") e d.mean_throughput_mbps,
  )

  abbrev pub after_s2c : Ndt5Result F → S2c.Run fl J shown → Run
  after_s2c r (S2c.panicked, c, fx) = (some nil_dereference, r, c, in_tests (codes "s2c") fx)
  after_s2c r (S2c.returned d e, c, fx) = (
    panic_on_error (codes "S2C - Could not run s2c test") e,
    record r { s2c = some d },
    c,
    in_tests (codes "s2c") fx ++ observed (codes "s2c") e d.mean_throughput_mbps,
  )

  abbrev pub of_meta : List String → List ℕ → List (Effect F)
  of_meta [] [] = []
  of_meta [] (n ∷ ns) = meta_values_observed n ∷ of_meta [] ns
  of_meta (l ∷ ls) ns = meta_error l ∷ of_meta ls ns

  abbrev or_no_values : Option (List NameValue) → List NameValue
  or_no_values none = []
  or_no_values (some es) = es

  unfoldable pub run_c2s : Server F → Bool → Ndt5Result F → Conn → Run
  run_c2s s false r c = (none, r, c, [])
  run_c2s s true r c = after_c2s r (C2s.manage_test fl J s.c2s_session c)

  unfoldable pub run_s2c : Server F → Bool → Ndt5Result F → Conn → Run
  run_s2c s false r c = (none, r, c, [])
  run_s2c s true r c = after_s2c r (S2c.manage_test fl J shown s.s2c_session c)

  unfoldable pub run_meta : Messager → Server F → Bool → Ndt5Result F → Conn → Run
  run_meta m s false r c = (none, r, c, [])
  run_meta m s true r c =
      let run = Meta.manage_test trim_space J m s.context_error s.meta_ends c in
      (
        panic_on_error (codes "META - Could not run meta test") run.error,
        record r { client_metadata = or_no_values run.results },
        run.conn,
        of_meta run.errors_counted run.values_observed,
      )

  abbrev or_zero : F → F
  or_zero rate = if is_zero rate then of_int (pos 0) else rate

  abbrev c2s_rate : Option (C2s.ArchivalData F) → F
  c2s_rate none = of_int (pos 0)
  c2s_rate (some d) = or_zero d.mean_throughput_mbps

  abbrev s2c_rate : Option (S2c.ArchivalData F) → F
  s2c_rate none = of_int (pos 0)
  s2c_rate (some d) = or_zero d.mean_throughput_mbps

  -- The speeds in Kbps.
  abbrev pub speed_msg : Ndt5Result F → Bytes
  speed_msg r =
      codes "You uploaded at "
      ++ (format_4 (mul (c2s_rate r.c2s) (of_int (pos 1000)))
          ++ (codes " and downloaded at " ++ format_4 (mul (s2c_rate r.s2c) (of_int (pos 1000)))))

  -- From the first message after the login to the last.
  unfoldable pub run_tests : Messager → Server F → ℤ → Ndt5Result F → Conn → Run
  run_tests m s tests r c =
      and_then (send m srv_queue (codes "0") (codes "SrvQueue - Could not send SrvQueue") r c)
        (λ r1 c1.
          and_then
            (send m msg_login (codes "v5.0-NDTinGO")
              (codes "MsgLoginVersion - Could not send MsgLogin with version") r1 c1)
            (λ r2 c2.
              and_then
                (send m msg_login (join (codes " ") (tests_to_run tests))
                  (codes "MsgLoginTests - Could not send MsgLogin with the tests") r2 c2)
                (λ r3 c3. and_then (run_c2s s (has_bit 1 tests) r3 c3) (λ r4 c4.
                  and_then (run_s2c s (has_bit 2 tests) r4 c4) (λ r5 c5.
                    and_then (run_meta m s (has_bit 5 tests) r5 c5) (λ r6 c6.
                      and_then
                        (send m msg_results (speed_msg r6)
                          (codes "MsgResults - Could not send test results message") r6 c6)
                        (λ r7 c7.
                          send m msg_logout [] (codes "MsgLogout - Could not send MsgLogout") r7
                            c7)))))))

  -- The tests that the client asks for are counted, one by one and together.
  abbrev pub requests : ℤ → List (Effect F)
  requests tests =
      map test_requested (requested tests)
      ++ suites_requested (join (codes "-") (suites tests)) ∷ []

  -- A nil messager panics when its encoding is asked for.
  unfoldable pub with_messager : Server F → ℤ → Ndt5Result F → Conn → Option Messager → Run
  with_messager s tests r c none = (some nil_dereference, r, c, requests tests)
  with_messager s tests r c (some m) =
      let (p, r', c', fx) =
        run_tests m s tests (record r { message_protocol = encoding_string (messager_encoding m) })
          c in
      (p, r', c', requests tests ++ fx)

  unfoldable pub after_login : Server F → Ndt5Result F → Login × Conn → Run
  after_login s r (login_panicked, c) = (some nil_dereference, r, c, [])
  after_login s r (logged (err e), c) = (
    some (panic_message (codes "Login - error reading JSON message") e),
    r,
    c,
    client_test_error (codes "control") (codes "LoginCeremony") ∷ [],
  )
  after_login s r (logged (ok tests), c) =
      let run = with_messager s tests r c (conn_messager c) in
      if not (has_bit 4 tests)
      then (none, r, c, client_test_error (codes "control") (codes "TestStatus") ∷ [])
      else run

  abbrev pub no_result : Ndt5Result F
  no_result = record { message_protocol = []; client_metadata = []; c2s = none; s2c = none }

  abbrev pub recovered : Option Bytes → List (Effect F)
  recovered none = control_counted (codes "okay") ∷ []
  recovered (some p) =
      panic_counted (panic_msg_to_err_type p) ∷ control_counted (codes "panic") ∷ []

  -- The deferred calls of both functions, the inner one's first.
  abbrev pub deferred : F → Run → List (Effect F)
  deferred d (p, r, c, fx) =
      active_inc ∷ fx
      ++ (record_saved r ∷ conn_closed ∷ recovered p ++ duration_observed d ∷ active_dec ∷ [])

  -- `HandleControlChannel`.
  unfoldable pub handle_control_channel : Server F → Conn → List (Effect F)
  handle_control_channel s c = deferred s.duration (after_login s no_result (s.login_ceremony c))
