-- ===== src/Protocol/Tests.antt =====
-- Runs of ndt5/protocol, with a small codec in place of encoding/json.
use ndt_server.Common.{
  ℕ, zero, suc, ◌≡◌, refl, ◌↔◌, true, [], ◌∷◌, ◌++◌, Option, none, some, Bytes, codes, ok, arith,
  length, ◌<◌,
}
use ndt_server.Protocol.Conn.{Conn, arrives, stream, net_read_message, read_input, read_message}
use ndt_server.Protocol.Delivery.{receive-send, sent, payload}
use ndt_server.Protocol.Frames.{parse_tlv_iff}
use ndt_server.Protocol.Json.{Json, JsonMessage}
use ndt_server.Protocol.Kind.{tlv}
use ndt_server.Protocol.Messager.{json_messager, send_message, receive_message}
use ndt_server.Protocol.Metrics.{end, field, number, text, structure, struct, pointer, Target}
use ndt_server.Protocol.Streams.{read_tlv-short_body, header}
use ndt_server.Protocol.Tlv.{expects, parse_tlv, tlv_frame, message, read_tlv_message}

-- Texts are shifted by one, and 0 stands between them.
abbrev shifted : Bytes → Bytes
shifted [] = []
shifted (x ∷ xs) = suc x ∷ shifted xs

abbrev unshifted : Bytes → Bytes
unshifted [] = []
unshifted (zero ∷ xs) = zero ∷ unshifted xs
unshifted (suc x ∷ xs) = x ∷ unshifted xs

abbrev prepend : ℕ → Option JsonMessage → Option JsonMessage
prepend x none = none
prepend x (some m) = some (record m { msg = x ∷ m.msg })

abbrev split_texts : Bytes → Option JsonMessage
split_texts [] = none
split_texts (zero ∷ b) = some (record { msg = []; tests = unshifted b })
split_texts (suc x ∷ b) = prepend x (split_texts b)

pub unshifted-shifted : (b : Bytes) → unshifted (shifted b) ≡ b
unshifted-shifted [] = refl
unshifted-shifted (x ∷ b) = rw (unshifted-shifted b)

pub split_texts-shifted :
    (a b : Bytes) → split_texts (shifted a ++ 0 ∷ shifted b) ≡ some (record { msg = a; tests = b })
split_texts-shifted [] b = rw (unshifted-shifted b)
split_texts-shifted (x ∷ a) b = rw (split_texts-shifted a b)

abbrev pub codec : Json
codec = record {
  marshal = λ m. shifted m.msg ++ 0 ∷ shifted m.tests;
  marshal_s2c = λ a b c. a ++ b ++ c;
  unmarshal = λ b. ok (split_texts b);
  unmarshal-marshal = λ m h k. rw (split_texts-shifted m.msg m.tests);
  unmarshal_null = refl;
}

abbrev pub over_tcp : Conn
over_tcp = record { inbox = stream []; encoding = tlv; outbox = []; write_faults = [] }

abbrev reading : Bytes → Conn
reading b = record over_tcp { inbox = stream (arrives b ∷ []) }

abbrev two_bytes : Bytes
two_bytes = 97 ∷ 98 ∷ []

parse_tlv_iff_example :
    (parse_tlv (2 ∷ 11 ∷ []) (11 ∷ 0 ∷ 2 ∷ 97 ∷ 98 ∷ []) ≡ message (97 ∷ 98 ∷ []) 11) ↔ (
      (expects (2 ∷ 11 ∷ []) 11 ≡ true)
      × (11 < 256)
      × (length two_bytes < 65536)
      × (11 ∷ 0 ∷ 2 ∷ 97 ∷ 98 ∷ [] ≡ tlv_frame 11 (97 ∷ 98 ∷ [])))
parse_tlv_iff_example =
    parse_tlv_iff (2 ∷ 11 ∷ []) (11 ∷ 0 ∷ 2 ∷ 97 ∷ 98 ∷ []) 11 (97 ∷ 98 ∷ [])
      (omega arith, (omega arith, (omega arith, (omega arith, (omega arith, tt)))))

abbrev short_body : Conn
short_body = record over_tcp { inbox = stream (arrives (header 5 4) ∷ arrives (97 ∷ []) ∷ []) }

read_tlv-short_body_example :
    (read_tlv_message (5 ∷ []) short_body).0 ≡ message (97 ∷ 0 ∷ 0 ∷ 0 ∷ []) 5
read_tlv-short_body_example =
    read_tlv-short_body (5 ∷ []) 5 4 (97 ∷ []) [] short_body (unfold expects in refl) (omega arith)
      (omega arith) (λ e. ground arith) (omega arith) refl

reading_abc :
    read_message (reading (tlv_frame 5 (payload codec json_messager (codes "abc"))))
    ≡ (ok (tlv_frame 5 (payload codec json_messager (codes "abc"))), over_tcp)
unfolding read_message net_read_message read_input tlv_frame
reading_abc = refl

receive-send_example :
    (send_message codec json_messager 5 (codes "abc") over_tcp
      ≡ (none, sent over_tcp (tlv_frame 5 (payload codec json_messager (codes "abc")))))
    × (receive_message codec json_messager 5
          (reading (tlv_frame 5 (payload codec json_messager (codes "abc"))))
        ≡ (some (codes "abc"), none, over_tcp))
receive-send_example =
    receive-send codec json_messager 5 (codes "abc") over_tcp
      (reading (tlv_frame 5 (payload codec json_messager (codes "abc")))) over_tcp (omega arith)
      (omega arith) (omega arith, (omega arith, (omega arith, tt))) refl reading_abc

-- A struct with a number, and a nested one with a text.
abbrev small : Target
small = pointer (
    struct (
      field (codes "N") (number (codes "7"))
        (field (codes "S") (structure (field (codes "T") (text (codes "x")) end)) end)))
