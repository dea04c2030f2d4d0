-- ===== src/Protocol/Transfer.antt =====
-- ndt5/protocol/protocol.go: `ReadBytes` and `FillUntil` of the two connections, and `UUIDToFile`.
use ndt_server.Common.{
  ℕ, ◌+◌, ◌≡◌, refl, Bool, true, false, List, [], ◌∷◌, ◌++◌, Option, none, some, Bytes, Error,
  codes, Result, ok, err, length, equal, if◌then◌else◌, map,
}
use ndt_server.Protocol.Conn.{Chunk, read_input}

-- A round of the writing loop: whether the time has not come yet, and how many bytes a write sends, if it does not fail.
pub record Round : Type 0 where
  pub before_end : Bool
  pub sends : Result ℕ

-- After a write, with the number of bytes that it counts for.
abbrev fill_on : (ℕ → ℕ) → ℕ → Result ℕ → (ℕ → ℕ × Option Error) → ℕ × Option Error
fill_on counts written (err e) k = (written, some e)
fill_on counts written (ok n) k = k (written + counts n)

-- The loop of both connections. The script of rounds ends where the time has come.
unfoldable pub fill : (ℕ → ℕ) → ℕ → List Round → ℕ × Option Error
fill counts written [] = (written, none)
fill counts written (r ∷ rs) =
    if r.before_end then fill_on counts written r.sends (λ w. fill counts w rs) else (written, none)

-- `FillUntil` of a websocket, by how `NewPreparedMessage` ends: the length of the message is counted.
unfoldable pub ws_fill_until : Option Error → ℕ → List Round → ℕ × Option Error
unfolding fill
ws_fill_until (some e) len rs = (0, some e)
ws_fill_until none len rs = fill (λ n. len) 0 rs

-- `FillUntil` of a TCP socket, which counts what `Write` has sent.
unfoldable pub net_fill_until : List Round → ℕ × Option Error
unfolding fill
net_fill_until rs = fill (λ n. n) 0 rs

-- `ReadBytes` of a websocket and of a TCP socket with its buffer of 8192 bytes: a count and an error, or nil.
unfoldable pub ws_read_bytes : Result Bytes → ℕ × Option Error
ws_read_bytes (ok b) = (length b, none)
ws_read_bytes (err e) = (0, some e)

abbrev counted : Result Bytes × List Chunk → ℕ × Option Error × List Chunk
counted (ok b, s) = (length b, none, s)
counted (err e, s) = (0, some e, s)

unfoldable pub net_read_bytes : List Chunk → ℕ × Option Error × List Chunk
net_read_bytes s = counted (read_input 8192 s)

abbrev pub bad_uuid : Bytes
bad_uuid = codes "ERROR_DISCOVERING_UUID"

-- The file that `UUIDToFile` opens: a new one with a name of this pattern, or the one with this name.
pub data Target : Type 0 where
  temp_file named_file : Bytes → Target

unfoldable pub uuid_to_file : Bytes → Target
uuid_to_file uuid =
    if equal uuid bad_uuid
    then temp_file (bad_uuid ++ codes "*.json")
    else named_file (uuid ++ codes ".json")

-- A write that sends all of the message sends the same with both connections.
pub net_fill-whole :
    (len : ℕ) (w : ℕ) (rs : List Bool)
    → fill (λ n. n) w (map (λ b. record { before_end = b; sends = ok len }) rs)
      ≡ fill (λ n. len) w (map (λ b. record { before_end = b; sends = ok len }) rs)
unfolding fill
net_fill-whole len w [] = refl
net_fill-whole len w (true ∷ rs) = net_fill-whole len (w + len) rs
net_fill-whole len w (false ∷ rs) = refl
