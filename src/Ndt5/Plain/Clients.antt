-- ===== src/Ndt5/Plain/Clients.antt =====
-- A plain client from its connection to its login (ndt5/plain/plain.go, ndt5/ndt5.go).
use ndt_server.Common.{
  ℕ, ◌≤◌, ◌≡◌, refl, ap, ◌∙◌, true, some, true, List, [], ◌∷◌, ◌++◌, Bytes, Error, ok, pos, arith,
  length, take, drop, take-all, drop-all, leb, Float, equal, false, codes,
}
use ndt_server.Ndt5.Control
use ndt_server.Ndt5.Control.Messages.{after_login_silent}
use ndt_server.Ndt5.Suites.{has_bit}
use ndt_server.Protocol.Messager.{tlv_messager, conn_messager, encoding_messager, messager_encoding}
use ndt_server.Ndt5.Control.{
  active_inc, requests, duration_observed, record_saved, control_counted, active_dec, Server,
  no_result, after_login, deferred, handle_control_channel,
}
use ndt_server.Ndt5.Login.Clients.{plain_login_tlv}
use ndt_server.Ndt5.Login.{logged, plain_login}
use ndt_server.Ndt5.Plain.{
  buffer_size, peek_onto, peek, Accepted, conn_closed, kickoff, adapt_net_conn, all_controlled,
  kick_off, after_peek, sniff_then_handle,
}
use ndt_server.Ndt5.S2c.{Shown}
use ndt_server.Protocol.Conn.{Conn, Chunk, arrives, stream, keep_rest, write_message}
use ndt_server.Protocol.Json.{Json}
use ndt_server.Protocol.Kind.{encoding_string, unknown, tlv, msg_login}
use ndt_server.Protocol.Tlv.{tlv_frame}

peek_filled :
    (b t r : Bytes) (s : List Chunk)
    → take buffer_size b ≡ t
    → drop buffer_size b ≡ r
    → leb 3 (length t) ≡ true
    → peek (arrives b ∷ s) ≡ (ok (take 3 t), keep_rest t (keep_rest r s))
unfolding peek peek_onto
peek_filled b t r s e d l = rw (e, d, l) refl

-- An arrival that fits the buffer is peeked at and left as it is.
peek_whole :
    (x y z : ℕ) (b : Bytes) (s : List Chunk)
    → length b ≤ 4093
    → peek (arrives (x ∷ y ∷ z ∷ b) ∷ s) ≡ (ok (x ∷ y ∷ z ∷ []), arrives (x ∷ y ∷ z ∷ b) ∷ s)
peek_whole x y z b s h =
    peek_filled (x ∷ y ∷ z ∷ b) (x ∷ y ∷ z ∷ b) [] s
      (take-all buffer_size (x ∷ y ∷ z ∷ b) (omega arith))
      (drop-all buffer_size (x ∷ y ∷ z ∷ b) (omega arith)) (ground arith)

module _ (fl : Float) (J : Json) (shown : Shown fl.F) (trim_space : Bytes → Bytes)
    (panic_message : Bytes → Error → Bytes) where
  open fl use {F}

  -- The control connection of a TLV client after its login: the kickoff message has been sent, the format is TLV,
  -- and what came behind the login is still to be read.
  abbrev pub logged_in : Bytes → List Chunk → Conn
  logged_in rest s = record {
    inbox = stream (keep_rest rest s);
    encoding = tlv;
    outbox = kickoff ∷ [];
    write_faults = [];
  }

  -- A plain TLV client whose login message is the first that arrives, with what follows it in the same
  -- segment, is served by the control channel as logged in with the tests that its one byte asks
  -- for, on a connection to which the kickoff message was written and from which only the login was read;
  -- then its connection is closed.
  pub sniff_then_handle_tlv :
      (server : Server F) (a : Accepted) (tests : ℕ) (rest : Bytes) (s : List Chunk)
      → length rest ≤ 4092
      → a.input ≡ arrives (tlv_frame msg_login (tests ∷ []) ++ rest) ∷ s
      → a.write_faults ≡ []
      → sniff_then_handle fl J shown trim_space panic_message server a
        ≡ all_controlled fl J shown trim_space panic_message (
            deferred fl J shown trim_space panic_message server.duration (
              after_login fl J shown trim_space panic_message
                (record server { login_ceremony = plain_login J })
                (no_result fl J shown trim_space panic_message)
                (logged (ok (pos tests)), logged_in rest s)))
          ++ conn_closed ∷ []
  unfolding sniff_then_handle after_peek kick_off handle_control_channel tlv_frame adapt_net_conn
      write_message
  sniff_then_handle_tlv server a tests rest s h i w =
      let g : equal (2 ∷ 0 ∷ 1 ∷ []) (codes "GET") ≡ false = unfold equal in refl in
      rw (i, peek_whole 2 0 1 (tests ∷ rest) s (omega arith), w, g)
        (ap
          (λ o.
            all_controlled fl J shown trim_space panic_message (
              deferred fl J shown trim_space panic_message server.duration (
                after_login fl J shown trim_space panic_message
                  (record server { login_ceremony = plain_login J })
                  (no_result fl J shown trim_space panic_message) o))
            ++ conn_closed ∷ [])
          (plain_login_tlv J (record (logged_in [] []) { encoding = unknown }) rest tests s))

  logged_in_messager :
      (rest : Bytes) (s : List Chunk) → conn_messager (logged_in rest s) ≡ some tlv_messager
  unfolding conn_messager encoding_messager
  logged_in_messager rest s = refl

  -- A plain TLV client that asks for the status alone, and for no test, is handled without a panic: its
  -- connection is counted as okay, after what it asks for, and a record without results is saved, which names the
  -- TLV format; then the connection is closed.
  pub sniff_then_handle_silent :
      (server : Server F) (a : Accepted) (tests : ℕ) (rest : Bytes) (s : List Chunk)
      → length rest ≤ 4092
      → a.input ≡ arrives (tlv_frame msg_login (tests ∷ []) ++ rest) ∷ s
      → a.write_faults ≡ []
      → has_bit 4 (pos tests) ≡ true
      → has_bit 1 (pos tests) ≡ false
      → has_bit 2 (pos tests) ≡ false
      → has_bit 5 (pos tests) ≡ false
      → sniff_then_handle fl J shown trim_space panic_message server a
        ≡ all_controlled fl J shown trim_space panic_message (
            active_inc ∷ requests fl J shown trim_space panic_message (pos tests)
            ++ (record_saved (record (no_result fl J shown trim_space panic_message) {
              message_protocol = encoding_string tlv;
            })
                ∷ Control.conn_closed
                ∷ control_counted (codes "okay")
                ∷ duration_observed server.duration
                ∷ active_dec
                ∷ []))
          ++ conn_closed ∷ []
  unfolding messager_encoding
  sniff_then_handle_silent server a tests rest s h i w t b c d =
      sniff_then_handle_tlv server a tests rest s h i w
      ∙ ap
          (λ o.
            all_controlled fl J shown trim_space panic_message
              (deferred fl J shown trim_space panic_message server.duration o)
            ++ conn_closed ∷ [])
          (after_login_silent fl J shown trim_space panic_message
            (record server { login_ceremony = plain_login J })
            (no_result fl J shown trim_space panic_message) (logged_in rest s) tlv_messager
            (pos tests) refl (logged_in_messager rest s) t b c d)
