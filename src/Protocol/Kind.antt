-- ===== src/Protocol/Kind.antt =====
-- ndt5/protocol/protocol.go: `MessageType`, a byte, with its names.
-- ndt5/protocol/messager.go: `Encoding`.
use ndt_server.Common.{
  ℕ, ◌+◌, ◌-◌, ◌/◌, ◌%◌, ◌++◌, [], ◌∷◌, Bytes, codes, itoa, ltb, ◌==◌, if◌then◌else◌,
}

abbrev pub msg_unknown : ℕ
msg_unknown = 0

abbrev pub srv_queue : ℕ
srv_queue = 1

abbrev pub msg_login : ℕ
msg_login = 2

abbrev pub test_prepare : ℕ
test_prepare = 3

abbrev pub test_start : ℕ
test_start = 4

abbrev pub test_msg : ℕ
test_msg = 5

abbrev pub test_finalize : ℕ
test_finalize = 6

abbrev pub msg_error : ℕ
msg_error = 7

abbrev pub msg_results : ℕ
msg_results = 8

abbrev pub msg_logout : ℕ
msg_logout = 9

abbrev pub msg_waiting : ℕ
msg_waiting = 10

abbrev pub msg_extended_login : ℕ
msg_extended_login = 11

abbrev hex_digit : ℕ → ℕ
hex_digit d = if ltb d 10 then b'0' + d else b'A' + (d - 10)

-- `%X` of a byte: no leading zero.
hex : ℕ → Bytes
hex b = if ltb b 16 then hex_digit b ∷ [] else hex_digit (b / 16) ∷ hex_digit (b % 16) ∷ []

unfoldable pub message_type_string : ℕ → Bytes
unfolding hex
message_type_string m =
    if m == srv_queue
    then codes "SrvQueue"
    else if m == msg_login
    then codes "MsgLogin"
    else if m == test_prepare
    then codes "TestPrepare"
    else if m == test_start
    then codes "TestStart"
    else if m == test_msg
    then codes "TestMsg"
    else if m == test_finalize
    then codes "TestFinalize"
    else if m == msg_error
    then codes "MsgError"
    else if m == msg_results
    then codes "MsgResults"
    else if m == msg_logout
    then codes "MsgLogout"
    else if m == msg_waiting
    then codes "MsgWaiting"
    else if m == msg_extended_login
    then codes "MsgExtendedLogin"
    else codes "UnknownMessage(0x" ++ hex m ++ codes ")"

-- `bad` holds an int that is none of the constants.
pub data Encoding : Type 0 where
  unknown json tlv : Encoding
  bad : ℕ → Encoding

unfoldable pub encoding_string : Encoding → Bytes
unfolding itoa
encoding_string unknown = codes "Unknown"
encoding_string json = codes "JSON"
encoding_string tlv = codes "TLV"
encoding_string (bad n) = codes "Bad Encoding value: " ++ itoa n
