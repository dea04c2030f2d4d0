-- ===== src/Protocol/Tlv.antt =====
-- ndt5/protocol/protocol.go: `ReadTLVMessage` and `WriteTLVMessage`.
use ndt_server.Common.{
  ℕ, ◌+◌, ◌*◌, ◌/◌, ◌%◌, Bool, false, ◌||◌, List, [], ◌∷◌, ◌++◌, Option, Bytes, Error, codes, itoa,
  Result, ok, err, length, drop, ltb, ◌==◌, ◌≡◌, refl, if◌then◌else◌,
}
use ndt_server.Protocol.Conn.{Conn, byte_at, read_message, write_message}
use ndt_server.Protocol.Kind.{message_type_string, msg_unknown}

-- The three results of `ReadTLVMessage`: the type is returned beside an error too.
pub data Tlv : Type 0 where
  message : Bytes → ℕ → Tlv
  failed : ℕ → Error → Tlv

unfoldable pub expects : List ℕ → ℕ → Bool
expects [] m = false
expects (t ∷ ts) m = m == t || expects ts m

abbrev spaced : List ℕ → Bytes
spaced [] = []
spaced (t ∷ []) = message_type_string t
spaced (t ∷ u ∷ ts) = message_type_string t ++ (b' ' ∷ spaced (u ∷ ts))

pub wrong_type : List ℕ → ℕ → Error
wrong_type ts m =
    codes "Read wrong message type. Wanted one of ["
    ++ (spaced ts ++ (codes "], got \"" ++ (message_type_string m ++ codes "\"")))

pub wrong_length : ℕ → ℕ → Error
wrong_length a b =
    codes "Message length ("
    ++ (itoa a ++ (codes ") does not match length of data received (" ++ (itoa b ++ codes ")")))

-- The checks that follow a read without error.
unfoldable pub parse_tlv : List ℕ → Bytes → Tlv
unfolding expects
parse_tlv ts b =
    if ltb (length b) 3
    then failed msg_unknown (codes "Message is too short")
    else let m = byte_at 0 b in
      let expected_len = byte_at 1 b * 256 + byte_at 2 b in
      if expects ts m
      then if expected_len == length (drop 3 b)
        then message (drop 3 b) m
        else failed m (wrong_length expected_len (length (drop 3 b)))
      else failed m (wrong_type ts m)

abbrev after_read : List ℕ → Result Bytes × Conn → Tlv × Conn
after_read ts (err e, c) = (failed msg_unknown e, c)
after_read ts (ok b, c) = (parse_tlv ts b, c)

unfoldable pub read_tlv_message : List ℕ → Conn → Tlv × Conn
read_tlv_message ts c = after_read ts (read_message c)

after_read-conn : (ts : List ℕ) (r : Result Bytes × Conn) → (after_read ts r).1 ≡ r.1
after_read-conn ts (err e, c) = refl
after_read-conn ts (ok b, c) = refl

-- The checks leave the connection as the read did.
pub read_tlv-conn : (ts : List ℕ) (c : Conn) → (read_tlv_message ts c).1 ≡ (read_message c).1
unfolding read_tlv_message
read_tlv-conn ts c = after_read-conn ts (read_message c)

-- The frame that `WriteTLVMessage` builds: `byte(..)` keeps the low eight bits.
unfoldable pub tlv_frame : ℕ → Bytes → Bytes
tlv_frame kind b = kind % 256 ∷ length b / 256 % 256 ∷ length b % 256 ∷ b

unfoldable pub write_tlv_message : ℕ → Bytes → Conn → Option Error × Conn
write_tlv_message kind b c = write_message (tlv_frame kind b) c
