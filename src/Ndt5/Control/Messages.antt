-- ===== src/Ndt5/Control/Messages.antt =====
-- What a client that asks for no test hears on the control connection (ndt5/ndt5.go).
use ndt_server.Common.{
  append-nil, List, ◌++◌, ℕ, ◌≡◌, refl, ◌∙◌, true, false, [], none, some, Bytes, Error, codes, ok,
  ℤ, Float,
}
use ndt_server.Ndt5.Control.{
  Ndt5Result, Effect, requests, Server, Run, and_then, send, run_c2s, run_s2c, run_meta, speed_msg,
  run_tests, with_messager, after_login,
}
use ndt_server.Ndt5.Login.{logged}
use ndt_server.Ndt5.S2c.{Shown}
use ndt_server.Ndt5.Suites.{has_bit, join, tests_to_run}
use ndt_server.Protocol.Conn.{Conn}
use ndt_server.Protocol.Delivery.{Healthy, sent, frame, send-Healthy}
use ndt_server.Protocol.Json.{Json}
use ndt_server.Protocol.Kind.{srv_queue, msg_login, msg_results, msg_logout, encoding_string}
use ndt_server.Protocol.Messager.{Messager, conn_messager, messager_encoding}

module _ (fl : Float) (J : Json) (shown : Shown fl.F) (trim_space : Bytes → Bytes)
    (panic_message : Bytes → Error → Bytes) where
  open fl use {F}

  -- A message that is sent lets the handling go on.
  and_then-send :
      (m : Messager) (kind : ℕ) (b prefix : Bytes) (r : Ndt5Result F) (c : Conn)
      (k : Ndt5Result F → Conn → Run fl J shown trim_space panic_message)
      → Healthy c
      → and_then fl J shown trim_space panic_message
          (send fl J shown trim_space panic_message m kind b prefix r c)
          k
        ≡ k r (sent c (frame J m kind b))
  unfolding and_then send
  and_then-send m kind b prefix r c k h = rw (send-Healthy J m kind b c h) refl

  send_silent :
      (m : Messager) (kind : ℕ) (b prefix : Bytes) (r : Ndt5Result F) (c : Conn)
      → Healthy c
      → send fl J shown trim_space panic_message m kind b prefix r c
        ≡ (none, r, sent c (frame J m kind b), [])
  unfolding send
  send_silent m kind b prefix r c h = rw (send-Healthy J m kind b c h) refl

  -- The first three messages, and the last two.
  abbrev pub greeted : Messager → ℤ → Conn → Conn
  greeted m tests c =
      sent
        (sent (sent c (frame J m srv_queue (codes "0")))
          (frame J m msg_login (codes "v5.0-NDTinGO")))
        (frame J m msg_login (join (codes " ") (tests_to_run tests)))

  abbrev pub dismissed : Messager → Ndt5Result F → Conn → Conn
  dismissed m r c =
      sent (sent c (frame J m msg_results (speed_msg fl J shown trim_space panic_message r)))
        (frame J m msg_logout [])

  -- A part that ends well, with the effects of what follows.
  and_then_effects :
      (r r' : Ndt5Result F) (c c' : Conn) (fx gx : List (Effect F))
      (k : Ndt5Result F → Conn → Run fl J shown trim_space panic_message)
      → k r c ≡ (none, r', c', gx)
      → and_then fl J shown trim_space panic_message (none, r, c, fx) k ≡ (none, r', c', fx ++ gx)
  unfolding and_then
  and_then_effects r r' c c' fx gx k h = rw h refl

  -- If each of the three tests that is asked for ends well.
  pub run_tests_complete :
      (m : Messager) (s : Server F) (tests : ℤ) (r r1 r2 r3 : Ndt5Result F) (c c1 c2 c3 : Conn)
      (f1 f2 f3 : List (Effect F))
      → Healthy c
      → run_c2s fl J shown trim_space panic_message s (has_bit 1 tests) r (greeted m tests c)
        ≡ (none, r1, c1, f1)
      → run_s2c fl J shown trim_space panic_message s (has_bit 2 tests) r1 c1 ≡ (none, r2, c2, f2)
      → run_meta fl J shown trim_space panic_message m s (has_bit 5 tests) r2 c2
        ≡ (none, r3, c3, f3)
      → Healthy c3
      → run_tests fl J shown trim_space panic_message m s tests r c
        ≡ (none, r3, dismissed m r3 c3, f1 ++ (f2 ++ f3))
  unfolding run_tests
  run_tests_complete m s tests r r1 r2 r3 c c1 c2 c3 f1 f2 f3 h p q o h' =
      and_then-send m srv_queue (codes "0") _ r c _ h
      ∙ and_then-send m msg_login (codes "v5.0-NDTinGO") _ r _ _ h
      ∙ and_then-send m msg_login (join (codes " ") (tests_to_run tests)) _ r _ _ h
      ∙ rw p (
          and_then_effects r1 r3 c1 (dismissed m r3 c3) f1 (f2 ++ f3) _ (
            rw q (
              and_then_effects r2 r3 c2 (dismissed m r3 c3) f2 f3 _ (
                rw o (
                  and_then_effects r3 r3 c3 (dismissed m r3 c3) f3 [] _ (
                    and_then-send m msg_results (speed_msg fl J shown trim_space panic_message r3) _
                      r3 c3 _ h'
                    ∙ send_silent m msg_logout [] _ r3 _ h')
                  ∙ rw (append-nil f3) refl)))))

  run_tests_silent :
      (m : Messager) (s : Server F) (tests : ℤ) (r : Ndt5Result F) (c : Conn)
      → Healthy c
      → has_bit 1 tests ≡ false
      → has_bit 2 tests ≡ false
      → has_bit 5 tests ≡ false
      → run_tests fl J shown trim_space panic_message m s tests r c
        ≡ (none, r, dismissed m r (greeted m tests c), [])
  unfolding run_c2s run_s2c run_meta
  run_tests_silent m s tests r c h a b d =
      let g = greeted m tests c in
      run_tests_complete m s tests r r r r c g g g [] [] [] h (rw a refl) (rw b refl) (rw d refl) h

  -- A client that asks for the status, and for neither of the tests nor for the metadata, hears five messages
  -- on a connection whose writes succeed: that it need not wait, the version, the tests, the two
  -- speeds and the end, in this order; the record stays without results but for the format of the messages, and
  -- what the client asks for is counted.
  pub after_login_silent :
      (s : Server F) (r : Ndt5Result F) (c : Conn) (m : Messager) (tests : ℤ)
      → Healthy c
      → conn_messager c ≡ some m
      → has_bit 4 tests ≡ true
      → has_bit 1 tests ≡ false
      → has_bit 2 tests ≡ false
      → has_bit 5 tests ≡ false
      → let r' = record r { message_protocol = encoding_string (messager_encoding m) } in
        after_login fl J shown trim_space panic_message s r (logged (ok tests), c) ≡ (
          none,
          r',
          dismissed m r' (greeted m tests c),
          requests fl J shown trim_space panic_message tests,
        )
  unfolding after_login with_messager
  after_login_silent s r c m tests h e t a b d =
      let r' = record r { message_protocol = encoding_string (messager_encoding m) } in
      rw (e, t, run_tests_silent m s tests r' c h a b d)
        (rw (append-nil (requests fl J shown trim_space panic_message tests)) refl)
