-- ===== src/Ndt5/Login/Clients.antt =====
-- Clients of the two login ceremonies.
use ndt_server.Common.{
  ℕ, ◌^◌, ◌<◌, ◌≡◌, ◌≢◌, refl, ◌∙◌, true, List, [], ◌∷◌, ◌++◌, none, Bytes, codes, Result, ok,
  length, itoa, atoi-itoa, itoa-All, ℤ, pos, arith, ap, ◌⊎◌, inl, inr, Bool-cases, ◌==◌,
}
use ndt_server.Ndt5.Login.{logged, login_panicked, after_message, plain_login, after_json, ws_login}
use ndt_server.Protocol.Conn.{
  Inbox, Conn, Chunk, arrives, stream, frames, keep_rest, read_message, set_encoding,
}
use ndt_server.Protocol.Frames.{parse-frame}
use ndt_server.Protocol.Json.{Json, IsAscii}
use ndt_server.Protocol.Kind.{json, tlv, msg_login, msg_extended_login}
use ndt_server.Protocol.Messager.{conn_messager, encoding_messager, receive_json_message}
use ndt_server.Protocol.Streams.{net_read-frame}
use ndt_server.Protocol.Tlv.{
  Tlv, message, failed, expects, read_tlv-conn, read_tlv_message, tlv_frame,
}

-- A TCP connection on which a frame has arrived before `s`, with `rest` behind it.
abbrev pub arrived : Conn → Bytes → List Chunk → Conn
arrived c f s = record c { inbox = stream (arrives f ∷ s) }

abbrev login_types : List ℕ
login_types = msg_login ∷ msg_extended_login ∷ []

read_login :
    (c : Conn) (m : ℕ) (body rest : Bytes) (s : List Chunk)
    → expects login_types m ≡ true
    → m < 256
    → length body < 65536
    → read_tlv_message login_types (arrived c (tlv_frame m body ++ rest) s)
      ≡ (message body m, record c { inbox = stream (keep_rest rest s) })
unfolding read_tlv_message read_message
read_login c m body rest s e h l =
    rw ((net_read-frame m body rest s l).0, parse-frame login_types m body e h l) refl

Inbox-cases :
    (i : Inbox)
    → ((rs : List (Result Bytes)) × (i ≡ frames rs)) ⊎ ((s : List Chunk) × (i ≡ stream s))
Inbox-cases (frames rs) = inl (rs, refl)
Inbox-cases (stream s) = inr (s, refl)

read_message-stream :
    (c : Conn) (s : List Chunk)
    → c.inbox ≡ stream s
    → (t : List Chunk) × ((read_message c).1.inbox ≡ stream t)
unfolding read_message
read_message-stream c s h = rw h (_, refl)

after_message-messager :
    (J : Json) (r : Tlv × Conn) (s : List Chunk) (tests : ℤ) (d : Conn)
    → r.1.inbox ≡ stream s
    → after_message J r ≡ (logged (ok tests), d)
    → conn_messager d ≢ none
unfolding after_message conn_messager encoding_messager set_encoding
after_message-messager J (failed t e, c) s tests d i h = ground arith
after_message-messager J (message v t, c) s tests d i h =
    elim (Bool-cases (t == msg_extended_login)) [
      | inl x ↦ ground (arith, x)
      | inr x ↦ elim (Bool-cases (t == msg_login)) [
        | inl y ↦ ground (arith, y)
        | inr y ↦ ground (arith, y)
      ]
    ]

module _ (J : Json) where
  -- What a JSON client sends: the tests as a decimal numeral.
  abbrev pub json_body : Bytes → ℕ → Bytes
  json_body version tests = J.marshal (record { msg = version; tests = itoa tests })

  pub plain_login_tlv :
      (c : Conn) (rest : Bytes) (tests : ℕ) (s : List Chunk)
      → plain_login J (arrived c (tlv_frame msg_login (tests ∷ []) ++ rest) s)
        ≡ (logged (ok (pos tests)), record c { inbox = stream (keep_rest rest s); encoding = tlv })
  unfolding plain_login after_message set_encoding
  plain_login_tlv c rest tests s =
      rw
        (read_login c msg_login (tests ∷ []) rest s (unfold expects in refl) (omega arith)
          (omega arith))
        refl

  plain_login_json :
      (c : Conn) (version rest : Bytes) (tests : ℕ) (s : List Chunk)
      → IsAscii version
      → tests < 2 ^ 63
      → length (json_body version tests) < 65536
      → plain_login J (arrived c (tlv_frame msg_extended_login (json_body version tests) ++ rest) s)
        ≡ (logged (ok (pos tests)), record c { inbox = stream (keep_rest rest s); encoding = json })
  unfolding plain_login after_message set_encoding
  plain_login_json c version rest tests s a h l =
      rw
        (
          read_login c msg_extended_login (json_body version tests) rest s (unfold expects in refl)
              (omega arith) l,
          J.unmarshal-marshal (record { msg = version; tests = itoa tests }) a (itoa-All tests),
          atoi-itoa tests h,
        )
        refl

  -- The plain server's login understands both kinds of client: a TLV client whose login message is
  -- one byte, and a JSON client whose login message names its version, in ASCII, and the tests as a numeral
  -- below 2 ^ 63, each in a frame that arrives whole. It ends with the tests that the client asked
  -- for, takes no more than the frame from the connection, writes nothing, and sets the encoding to the client's.
  pub plain_login_answers :
      (c : Conn) (version rest : Bytes) (tests : ℕ) (s : List Chunk)
      → IsAscii version
      → tests < 2 ^ 63
      → length (json_body version tests) < 65536
      → (plain_login J (arrived c (tlv_frame msg_login (tests ∷ []) ++ rest) s) ≡ (
        logged (ok (pos tests)),
        record c { inbox = stream (keep_rest rest s); encoding = tlv },
      ))
        × (plain_login J
              (arrived c (tlv_frame msg_extended_login (json_body version tests) ++ rest) s)
            ≡ (
              logged (ok (pos tests)),
              record c { inbox = stream (keep_rest rest s); encoding = json },
            ))
  plain_login_answers c version rest tests s a h l =
      (plain_login_tlv c rest tests s, plain_login_json c version rest tests s a h l)

  -- A client of the plain server that logs in is given a messager: with an `ok` login the
  -- connection's messager is not nil.
  pub plain_login_messager :
      (c d : Conn) (tests : ℤ) → plain_login J c ≡ (logged (ok tests), d) → conn_messager d ≢ none
  unfolding plain_login
  plain_login_messager c d tests h = elim (Inbox-cases c.inbox) [
    | inl (rs, i) ↦ ground (arith, i)
    | inr (s, i) ↦
        let (t, e) = read_message-stream c s i in
        after_message-messager J (read_tlv_message login_types c) t tests d
          (ap (λ c. c.inbox) (read_tlv-conn login_types c) ∙ e) (ground (arith, i))
  ]

  -- A websocket whose next message is `f`.
  abbrev pub framed : Conn → Bytes → List (Result Bytes) → Conn
  framed c f rs = record c { inbox = frames (ok f ∷ rs) }

  ws_login-frame :
      (c : Conn) (body : Bytes) (rs : List (Result Bytes))
      → length body < 65536
      → read_tlv_message (msg_extended_login ∷ []) (framed c (tlv_frame msg_extended_login body) rs)
        ≡ (message body msg_extended_login, record c { inbox = frames rs })
  unfolding read_tlv_message read_message
  ws_login-frame c body rs l =
      rw
        (parse-frame (msg_extended_login ∷ []) msg_extended_login body (unfold expects in refl)
          (omega arith) l)
        refl

  pub ws_login_null :
      (c : Conn) (rs : List (Result Bytes))
      → ws_login J (framed c (tlv_frame msg_extended_login (codes "null")) rs)
        ≡ (login_panicked, record c { inbox = frames rs })
  unfolding ws_login receive_json_message after_json
  ws_login_null c rs = rw (ws_login-frame c (codes "null") rs (omega arith), J.unmarshal_null) refl

  -- The login of the websocket servers ends with the tests that a JSON client asks for, when its
  -- message names them as a numeral below 2 ^ 63, fits a frame, and its version is ASCII. A client
  -- whose message has the JSON text `null` as its contents makes it panic.
  pub ws_login_answers :
      (c : Conn) (version : Bytes) (tests : ℕ) (rs : List (Result Bytes))
      → IsAscii version
      → tests < 2 ^ 63
      → length (json_body version tests) < 65536
      → (ws_login J (framed c (tlv_frame msg_extended_login (json_body version tests)) rs)
          ≡ (logged (ok (pos tests)), record c { inbox = frames rs }))
        × (ws_login J (framed c (tlv_frame msg_extended_login (codes "null")) rs)
            ≡ (login_panicked, record c { inbox = frames rs }))
  unfolding ws_login receive_json_message after_json
  ws_login_answers c version tests rs a h l = (
    rw
        (
          ws_login-frame c (json_body version tests) rs l,
          J.unmarshal-marshal (record { msg = version; tests = itoa tests }) a (itoa-All tests),
          atoi-itoa tests h,
        )
        refl,
    ws_login_null c rs,
  )
