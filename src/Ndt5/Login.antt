-- ===== src/Ndt5/Login.antt =====
-- The login ceremonies: `LoginCeremony` of ndt5/plain/plain.go and of ndt5/handler/wshandler.go.
pub mod Clients
use ndt_server.Common.{
  ℕ, ◌==◌, Bool, true, false, List, [], ◌∷◌, Option, none, some, Bytes, Error, codes, Result, ok,
  err, ℤ, pos, atoi, if◌then◌else◌,
}
use ndt_server.Protocol.Conn.{Inbox, frames, stream, Conn, set_encoding}
use ndt_server.Protocol.Json.{Json, JsonMessage}
use ndt_server.Protocol.Kind.{json, tlv, msg_login, msg_extended_login}
use ndt_server.Protocol.Messager.{receive_json_message}
use ndt_server.Protocol.Tlv.{Tlv, message, failed, read_tlv_message}

-- How a login ends: with the tests that the client asks for, or an error, or it panics.
pub data Login : Type 0 where
  logged : Result ℤ → Login
  login_panicked : Login

-- Whether the connection is a `MeasuredFlexibleConnection`, as the one over a TCP socket is.
abbrev is_flexible : Inbox → Bool
is_flexible (frames rs) = false
is_flexible (stream s) = true

module _ (J : Json) where
  -- `json.Unmarshal` into a struct that is zero: the literal `null` leaves it so.
  abbrev or_empty : Result (Option JsonMessage) → Result JsonMessage
  or_empty (err e) = err e
  or_empty (ok none) = ok (record { msg = []; tests = [] })
  or_empty (ok (some m)) = ok m

  abbrev tests_of : Result JsonMessage → Result ℤ
  tests_of (err e) = err e
  tests_of (ok m) = atoi m.tests

  abbrev one_byte : Bytes → Result ℤ
  one_byte [] = err (codes "MsgLogin requires a 1-byte message")
  one_byte (x ∷ []) = ok (pos x)
  one_byte (x ∷ y ∷ b) = err (codes "MsgLogin requires a 1-byte message")

  -- After the message is read: its type sets the encoding, also if what follows fails.
  unfoldable pub after_message : Tlv × Conn → Login × Conn
  after_message (failed t e, c) = (logged (err e), c)
  after_message (message v t, c) =
      if t == msg_extended_login
      then (logged (tests_of (or_empty (J.unmarshal v))), set_encoding json c)
      else if t == msg_login
      then (logged (one_byte v), set_encoding tlv c)
      else (logged (err (codes "Unknown message type")), c)

  -- `LoginCeremony` of the plain server.
  unfoldable pub plain_login : Conn → Login × Conn
  plain_login c =
      let read = after_message (read_tlv_message (msg_login ∷ msg_extended_login ∷ []) c) in
      if is_flexible c.inbox then read else (
        logged (
            err (codes "the connection is unable to set its encoding dynamically - this is a bug")),
        c,
      )

  -- A message without an error may be nil, and its field is read.
  unfoldable pub after_json : Option JsonMessage × Option Error × Conn → Login × Conn
  after_json (m, some e, c) = (logged (err e), c)
  after_json (some m, none, c) = (logged (atoi m.tests), c)
  after_json (none, none, c) = (login_panicked, c)

  -- `LoginCeremony` of the WS and WSS servers.
  unfoldable pub ws_login : Conn → Login × Conn
  ws_login c = after_json (receive_json_message J msg_extended_login c)
