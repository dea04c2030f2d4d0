-- ===== src/Protocol/Delivery.antt =====
-- What a messager sends, a messager of the same format receives.
use ndt_server.Common.{
  ℕ, ◌<◌, ◌≡◌, refl, [], ◌∷◌, ◌++◌, List, Option, none, some, Bytes, Error, ok, arith, length, true,
  ◌∙◌,
}
use ndt_server.Protocol.Conn.{Conn, write_message, read_message}
use ndt_server.Protocol.Frames.{parse-frame}
use ndt_server.Protocol.Json.{Json, IsAscii}
use ndt_server.Protocol.Messager.{
  Messager, json_messager, tlv_messager, send_message, receive_message,
}
use ndt_server.Protocol.Tlv.{expects, read_tlv_message, write_tlv_message, tlv_frame}

-- A connection on which no write fails.
abbrev pub Healthy : Conn → Type 0
Healthy c = c.write_faults ≡ []

abbrev pub sent : Conn → Bytes → Conn
sent c b = record c { outbox = c.outbox ++ b ∷ [] }

pub write-Healthy : (b : Bytes) (c : Conn) → Healthy c → write_message b c ≡ (none, sent c b)
unfolding write_message
write-Healthy b c h = ground arith

pub write-fails :
    (b : Bytes) (e : Error) (ws : List (Option Error)) (c : Conn)
    → c.write_faults ≡ some e ∷ ws
    → write_message b c ≡ (some e, record c { write_faults = ws })
unfolding write_message
write-fails b e ws c h = ground arith

pub write-passes :
    (b : Bytes) (ws : List (Option Error)) (c : Conn)
    → c.write_faults ≡ none ∷ ws
    → write_message b c ≡ (none, record (sent c b) { write_faults = ws })
unfolding write_message
write-passes b ws c h = ground arith

expects_one : (k : ℕ) → expects (k ∷ []) k ≡ true
unfolding expects
expects_one k = ground arith

module _ (J : Json) where
  -- What stands in the frame of a message.
  abbrev pub payload : Messager → Bytes → Bytes
  payload json_messager b = J.marshal (record { msg = b; tests = [] })
  payload tlv_messager b = b

  -- The texts that a format carries unchanged.
  abbrev pub Carries : Messager → Bytes → Type 0
  Carries json_messager b = IsAscii b
  Carries tlv_messager b = Unit

  pub send_message-eq :
      (m : Messager) (kind : ℕ) (b : Bytes) (c : Conn)
      → send_message J m kind b c ≡ write_message (tlv_frame kind (payload m b)) c
  unfolding send_message write_tlv_message
  send_message-eq json_messager kind b c = refl
  send_message-eq tlv_messager kind b c = refl

  -- The frame of a message.
  abbrev pub frame : Messager → ℕ → Bytes → Bytes
  frame m kind b = tlv_frame kind (payload m b)

  pub send-Healthy :
      (m : Messager) (kind : ℕ) (b : Bytes) (c : Conn)
      → Healthy c
      → send_message J m kind b c ≡ (none, sent c (frame m kind b))
  send-Healthy m kind b c h = send_message-eq m kind b c ∙ write-Healthy _ c h

  receive-frame :
      (m : Messager) (kind : ℕ) (b : Bytes) (d d' : Conn)
      → kind < 256
      → length (payload m b) < 65536
      → Carries m b
      → read_message d ≡ (ok (tlv_frame kind (payload m b)), d')
      → receive_message J m kind d ≡ (some b, none, d')
  unfolding receive_message read_tlv_message
  receive-frame json_messager kind b d d' k l a e = rw (
    e,
    parse-frame (kind ∷ []) kind _ (expects_one kind) k l,
    J.unmarshal-marshal (record { msg = b; tests = [] }) a tt,
  )
  receive-frame tlv_messager kind b d d' k l a e =
      rw (e, parse-frame (kind ∷ []) kind _ (expects_one kind) k l)

  -- On a connection whose writes succeed, a message of type `kind` leaves as one frame, and a peer
  -- of the same format that reads this frame while it expects `kind` gets the text back with no
  -- error. The text fits a frame, and is ASCII if the format is JSON.
  pub receive-send :
      (m : Messager) (kind : ℕ) (b : Bytes) (c d d' : Conn)
      → kind < 256
      → length (payload m b) < 65536
      → Carries m b
      → Healthy c
      → read_message d ≡ (ok (tlv_frame kind (payload m b)), d')
      → (send_message J m kind b c ≡ (none, sent c (tlv_frame kind (payload m b))))
        × (receive_message J m kind d ≡ (some b, none, d'))
  receive-send m kind b c d d' k l a h e =
      (send_message-eq m kind b c ∙ write-Healthy _ c h, receive-frame m kind b d d' k l a e)
