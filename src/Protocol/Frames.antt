-- ===== src/Protocol/Frames.antt =====
-- What `ReadTLVMessage` accepts, against what `WriteTLVMessage` builds.
use ndt_server.Common.{
  ℕ, ◌+◌, ◌*◌, ◌/◌, ◌%◌, ◌≤◌, ◌<◌, true, ◌↔◌, [], ◌∷◌, ◌≡◌, List, Bytes, arith, All, length,
}
use ndt_server.Protocol.Tlv.{expects, parse_tlv, tlv_frame, message, failed, wrong_length}

abbrev pub IsBytes : Bytes → Type 0
IsBytes b = All (λ c. c < 256) b

pub parse-frame :
    (ts : List ℕ) (m : ℕ) (body : Bytes)
    → expects ts m ≡ true
    → m < 256
    → length body < 65536
    → parse_tlv ts (tlv_frame m body) ≡ message body m
unfolding parse_tlv tlv_frame
parse-frame ts m body h k l = let e : m % 256 ≡ m = omega arith in rw (e, h) (ground arith)

parse_sound :
    (ts : List ℕ) (b : Bytes) (m : ℕ) (body : Bytes)
    → IsBytes b
    → parse_tlv ts b ≡ message body m
    → (expects ts m ≡ true) × (m < 256) × (length body < 65536) × (b ≡ tlv_frame m body)
unfolding parse_tlv tlv_frame
parse_sound ts (x ∷ y ∷ z ∷ r) m body h e = ground arith
parse_sound ts (x ∷ y ∷ []) m body h e = ground arith
parse_sound ts (x ∷ []) m body h e = ground arith
parse_sound ts [] m body h e = ground arith

-- A list of bytes is accepted with type `m` and contents `body` exactly when it is the frame that
-- the server itself would build for them, `m` is one of the expected types, and the contents fit
-- the two bytes of the length.
pub parse_tlv_iff :
    (ts : List ℕ) (b : Bytes) (m : ℕ) (body : Bytes)
    → IsBytes b
    → (parse_tlv ts b ≡ message body m)
      ↔ ((expects ts m ≡ true) × (m < 256) × (length body < 65536) × (b ≡ tlv_frame m body))
parse_tlv_iff ts b m body h =
    (parse_sound ts b m body h, λ (e, k, l, f). rw f (parse-frame ts m body e k l))

-- A message of 64 KiB or more is written with a length that its reader refuses: the frame is
-- sent, and no reader that expects the type accepts it.
pub parse-frame_oversized :
    (ts : List ℕ) (m : ℕ) (body : Bytes)
    → expects ts m ≡ true
    → m < 256
    → 65536 ≤ length body
    → parse_tlv ts (tlv_frame m body) ≡ failed m (wrong_length (length body % 65536) (length body))
unfolding parse_tlv tlv_frame
parse-frame_oversized ts m body h k l =
    let e : m % 256 ≡ m = omega arith in
    let f : length body / 256 % 256 * 256 + length body % 256 ≡ length body % 65536 = omega arith in
    rw (e, h, f) (ground arith)
