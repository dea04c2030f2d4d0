-- ===== src/Protocol/Messager.antt =====
-- ndt5/protocol/messager.go: sending and receiving in either format, over
-- `SendJSONMessage` and `ReceiveJSONMessage` of ndt5/protocol/protocol.go.
use ndt_server.Common.{
  ℕ, [], ◌∷◌, ◌++◌, Option, none, some, Bytes, Error, codes, Result, ok, err, ℤ, format_int,
}
use ndt_server.Protocol.Conn.{Conn, Inbox, frames, stream}
use ndt_server.Protocol.Json.{Json, JsonMessage}
use ndt_server.Protocol.Kind.{Encoding, unknown, json, tlv, bad, test_msg}
use ndt_server.Protocol.Tlv.{Tlv, message, failed, read_tlv_message, write_tlv_message}

-- The two implementations of the interface `Messager`.
pub data Messager : Type 0 where
  json_messager tlv_messager : Messager

-- `(Encoding).Messager`, which is nil for an encoding that is not known.
unfoldable pub encoding_messager : Encoding → Option Messager
encoding_messager unknown = none
encoding_messager json = some json_messager
encoding_messager tlv = some tlv_messager
encoding_messager (bad n) = none

abbrev messager_of : Inbox → Encoding → Option Messager
messager_of (frames rs) e = encoding_messager json
messager_of (stream s) e = encoding_messager e

-- `Messager()` of `wsConnection`, which is always JSON, and of `netConnection`.
unfoldable pub conn_messager : Conn → Option Messager
unfolding encoding_messager
conn_messager c = messager_of c.inbox c.encoding

-- `Encoding()` of the two messagers.
unfoldable pub messager_encoding : Messager → Encoding
messager_encoding json_messager = json
messager_encoding tlv_messager = tlv

module _ (J : Json) where
  -- `SendJSONMessage`.
  unfoldable pub send_json_message : ℕ → Bytes → Conn → Option Error × Conn
  send_json_message kind msg c =
      write_tlv_message kind (J.marshal (record { msg = msg; tests = [] })) c

  abbrev received : Bytes → Result (Option JsonMessage) → Option JsonMessage × Option Error
  received b (err e) = (some (record { msg = b; tests = [] }), some e)
  received b (ok m) = (m, none)

  abbrev decode_json : Tlv × Conn → Option JsonMessage × Option Error × Conn
  decode_json (failed m e, c) = (none, some e, c)
  decode_json (message b m, c) = let (v, e) = received b (J.unmarshal b) in (v, e, c)

  -- `ReceiveJSONMessage`: a message that is no JSON is returned as it is, beside the error.
  unfoldable pub receive_json_message : ℕ → Conn → Option JsonMessage × Option Error × Conn
  receive_json_message kind c = decode_json (read_tlv_message (kind ∷ []) c)

  -- `SendMessage` of the two messagers.
  unfoldable pub send_message : Messager → ℕ → Bytes → Conn → Option Error × Conn
  unfolding send_json_message
  send_message json_messager kind contents c = send_json_message kind contents c
  send_message tlv_messager kind contents c = write_tlv_message kind contents c

  -- `SendS2CResults` of the two messagers.
  unfoldable pub send_s2c_results : Messager → ℤ → ℤ → ℤ → Conn → Option Error × Conn
  unfolding format_int
  send_s2c_results json_messager kbps unsent total c =
      write_tlv_message test_msg
        (J.marshal_s2c (format_int kbps) (format_int unsent) (format_int total)) c
  send_s2c_results tlv_messager kbps unsent total c =
      write_tlv_message test_msg
        (format_int kbps ++ (b' ' ∷ (format_int unsent ++ (b' ' ∷ format_int total)))) c

  abbrev message_text :
      Option JsonMessage × Option Error × Conn → Option Bytes × Option Error × Conn
  message_text (none, none, c) = (none, some (codes "empty message received without error"), c)
  message_text (none, some e, c) = (none, some e, c)
  message_text (some m, e, c) = (some m.msg, e, c)

  abbrev tlv_text : Tlv × Conn → Option Bytes × Option Error × Conn
  tlv_text (failed m e, c) = (none, some e, c)
  tlv_text (message b m, c) = (some b, none, c)

  -- `ReceiveMessage` of the two messagers: a slice, or nil, and an error, or nil.
  unfoldable pub receive_message : Messager → ℕ → Conn → Option Bytes × Option Error × Conn
  unfolding receive_json_message
  receive_message json_messager kind c = message_text (receive_json_message kind c)
  receive_message tlv_messager kind c = tlv_text (read_tlv_message (kind ∷ []) c)
