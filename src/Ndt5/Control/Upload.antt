-- ===== src/Ndt5/Control/Upload.antt =====
-- What a client that asks for the upload test alone hears on the control connection, and what is recorded of it
-- (ndt5/ndt5.go, ndt5/c2s/c2s.go).
use ndt_server.Common.{
  ℕ, ◌≡◌, refl, ◌∙◌, true, false, List, [], ◌∷◌, ◌++◌, append-nil, some, none, Bytes, Error, codes,
  ok, ℤ, pos, itoa, format_int, Float,
}
use ndt_server.Ndt5.C2s.Messages.{begun, manage_test_complete}
use ndt_server.Ndt5.C2s.{TestConn, throughput}
use ndt_server.Ndt5.C2s
use ndt_server.Ndt5.Control.Messages.{greeted, dismissed, run_tests_complete}
use ndt_server.Ndt5.Control.{
  Ndt5Result, Effect, in_test, requests, Server, observed, run_c2s, run_s2c, run_meta, run_tests,
  with_messager, after_login,
}
use ndt_server.Ndt5.Login.{logged}
use ndt_server.Ndt5.S2c.{Shown}
use ndt_server.Ndt5.Suites.{has_bit}
use ndt_server.Protocol.Conn.{Conn}
use ndt_server.Protocol.Delivery.{Healthy, frame}
use ndt_server.Protocol.Json.{Json}
use ndt_server.Protocol.Kind.{test_prepare, test_start, test_msg, test_finalize, encoding_string}
use ndt_server.Protocol.Messager.{Messager, conn_messager, messager_encoding}
use ndt_server.Web100.{Metrics, new_measurer, start_measuring, stop_measuring}

module _ (fl : Float) (J : Json) (shown : Shown fl.F) (trim_space : Bytes → Bytes)
    (panic_message : Bytes → Error → Bytes) where
  open fl use {F, of_int, div, to_int}

  -- The four messages of the upload test.
  abbrev pub uploaded : Messager → ℕ → F → Conn → Conn
  uploaded m port kbps c = record c {
    outbox =
        c.outbox
        ++ frame J m test_prepare (itoa port)
          ∷ frame J m test_start []
          ∷ frame J m test_msg (format_int (to_int kbps))
          ∷ frame J m test_finalize []
          ∷ [];
  }

  pub greeted_messager :
      (m : Messager) (tests : ℤ) (c : Conn)
      → conn_messager (greeted fl J shown trim_space panic_message m tests c) ≡ conn_messager c
  unfolding conn_messager
  greeted_messager m tests c = refl

  -- The record of the test.
  abbrev pub with_upload : Server F → TestConn → F → Ndt5Result F → Ndt5Result F
  with_upload s t kbps r = record r {
    c2s = some (record (begun fl J s.c2s_session t) {
      mean_throughput_mbps = div kbps (of_int (pos 1000));
    });
  }

  abbrev pub of_upload : F → List (Effect F)
  of_upload kbps =
      in_test (codes "c2s") C2s.test_conn_closed
      ∷ observed fl J shown trim_space panic_message (codes "c2s") none
          (div kbps (of_int (pos 1000)))

  pub run_c2s_complete :
      (s : Server F) (r : Ndt5Result F) (c : Conn) (m : Messager) (port : ℕ) (t : TestConn)
      (web100 : Metrics)
      → conn_messager c ≡ some m
      → s.c2s_session.server ≡ ok port
      → s.c2s_session.served ≡ ok t
      → Healthy c
      → s.c2s_session.transfer_error ≡ none
      → stop_measuring (start_measuring s.c2s_session.polls new_measurer) ≡ ok web100
      → let kbps = throughput fl J web100.tcp_info.bytes_received s.c2s_session.seconds in
        run_c2s fl J shown trim_space panic_message s true r c
        ≡ (none, with_upload s t kbps r, uploaded m port kbps c, of_upload kbps)
  unfolding run_c2s
  run_c2s_complete s r c m port t web100 e p q h te w =
      rw (manage_test_complete fl J s.c2s_session c m port t web100 e p q h te w) refl

  run_tests_upload :
      (m : Messager) (s : Server F) (tests : ℤ) (r : Ndt5Result F) (c : Conn) (port : ℕ)
      (t : TestConn) (web100 : Metrics)
      → Healthy c
      → conn_messager c ≡ some m
      → has_bit 1 tests ≡ true
      → has_bit 2 tests ≡ false
      → has_bit 5 tests ≡ false
      → s.c2s_session.server ≡ ok port
      → s.c2s_session.served ≡ ok t
      → s.c2s_session.transfer_error ≡ none
      → stop_measuring (start_measuring s.c2s_session.polls new_measurer) ≡ ok web100
      → let kbps = throughput fl J web100.tcp_info.bytes_received s.c2s_session.seconds in
        let r' = with_upload s t kbps r in
        run_tests fl J shown trim_space panic_message m s tests r c ≡ (
          none,
          r',
          dismissed fl J shown trim_space panic_message m r'
              (uploaded m port kbps (greeted fl J shown trim_space panic_message m tests c)),
          of_upload kbps,
        )
  unfolding run_s2c run_meta
  run_tests_upload m s tests r c port t web100 h e a b d p q te w =
      let kbps = throughput fl J web100.tcp_info.bytes_received s.c2s_session.seconds in
      let r' = with_upload s t kbps r in
      let c' = greeted fl J shown trim_space panic_message m tests c in
      let u = uploaded m port kbps c' in
      run_tests_complete fl J shown trim_space panic_message m s tests r r' r' r' c u u u
        (of_upload kbps) [] [] h
        (rw a (run_c2s_complete s r c' m port t web100 (greeted_messager m tests c ∙ e) p q h te w))
        (rw b refl) (rw d refl) h
      ∙ rw (append-nil (of_upload kbps)) refl

  -- A client that asks for the upload test and the status alone, on a connection whose writes succeed, with a
  -- test that goes to its end: it hears the greeting, the port, the start, the throughput in Kbps and the end
  -- of the test, then the speeds and the end, in this order and nothing else; the record gets the addresses,
  -- the times and the throughput in Mbps of the test; and the effects are those of the request, the close of
  -- the test connection and the observation of the throughput.
  pub after_login_upload :
      (s : Server F) (r : Ndt5Result F) (c : Conn) (m : Messager) (tests : ℤ) (port : ℕ)
      (t : TestConn) (web100 : Metrics)
      → Healthy c
      → conn_messager c ≡ some m
      → has_bit 4 tests ≡ true
      → has_bit 1 tests ≡ true
      → has_bit 2 tests ≡ false
      → has_bit 5 tests ≡ false
      → s.c2s_session.server ≡ ok port
      → s.c2s_session.served ≡ ok t
      → s.c2s_session.transfer_error ≡ none
      → stop_measuring (start_measuring s.c2s_session.polls new_measurer) ≡ ok web100
      → let kbps = throughput fl J web100.tcp_info.bytes_received s.c2s_session.seconds in
        let r' = record r { message_protocol = encoding_string (messager_encoding m) } in
        let r'' = with_upload s t kbps r' in
        after_login fl J shown trim_space panic_message s r (logged (ok tests), c) ≡ (
          none,
          r'',
          dismissed fl J shown trim_space panic_message m r''
              (uploaded m port kbps (greeted fl J shown trim_space panic_message m tests c)),
          requests fl J shown trim_space panic_message tests ++ of_upload kbps,
        )
  unfolding after_login with_messager
  after_login_upload s r c m tests port t web100 h e st a b d p q te w =
      let r' = record r { message_protocol = encoding_string (messager_encoding m) } in
      rw (e, st, run_tests_upload m s tests r' c port t web100 h e a b d p q te w) refl
