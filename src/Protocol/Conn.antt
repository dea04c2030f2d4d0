-- ===== src/Protocol/Conn.antt =====
-- ndt5/protocol/protocol.go: the control connection, over a websocket or a TCP socket.
-- What arrives and how writes end is a script that the connection holds. A websocket's
-- `ReadMessage` is the websocket library's, so its script has one entry for each call; the TCP
-- socket's is the program's own, over the reads of an `io.Reader`.
use ndt_server.Common.{
  ℕ, zero, suc, ◌+◌, ◌-◌, ◌*◌, List, [], ◌∷◌, ◌++◌, Option, none, some, Bytes, Error, codes, Result,
  ok, err, length, take, drop, replicate,
}
use ndt_server.Protocol.Kind.{Encoding}

-- An event at an `io.Reader`: bytes that arrive together, or an error.
pub data Chunk : Type 0 where
  arrives : Bytes → Chunk
  fails : Error → Chunk

abbrev pub keep_rest : Bytes → List Chunk → List Chunk
keep_rest [] s = s
keep_rest (b ∷ bs) s = arrives (b ∷ bs) ∷ s

-- `Read(p)` with `len(p) == k`: at most `k` bytes of what has arrived. A read of no bytes does
-- not wait, and a script that is used up is the end of the stream.
unfoldable pub read_input : ℕ → List Chunk → Result Bytes × List Chunk
read_input zero s = (ok [], s)
read_input (suc k) [] = (err (codes "EOF"), [])
read_input (suc k) (fails e ∷ s) = (err e, s)
read_input (suc k) (arrives b ∷ s) = (ok (take (suc k) b), keep_rest (drop (suc k) b) s)

-- The buffer `make([]byte, k)` after a read into it.
abbrev pub into_buffer : ℕ → Bytes → Bytes
into_buffer k b = b ++ replicate (k - length b) 0

abbrev pub byte_at : ℕ → Bytes → ℕ
byte_at i [] = 0
byte_at zero (b ∷ bs) = b
byte_at (suc i) (b ∷ bs) = byte_at i bs

unfoldable pub read_body : Bytes → Result Bytes × List Chunk → Result Bytes × List Chunk
read_body first (err e, s) = (err e, s)
read_body first (ok b, s) =
    (ok (first ++ into_buffer (byte_at 1 first * 256 + byte_at 2 first) b), s)

unfoldable pub read_header : Result Bytes × List Chunk → Result Bytes × List Chunk
unfolding read_body
read_header (err e, s) = (err e, s)
read_header (ok b, s) =
    let first = into_buffer 3 b in
    read_body first (read_input (byte_at 1 first * 256 + byte_at 2 first) s)

-- `(*netConnection).ReadMessage`.
unfoldable pub net_read_message : List Chunk → Result Bytes × List Chunk
unfolding read_header
net_read_message s = read_header (read_input 3 s)

pub data Inbox : Type 0 where
  frames : List (Result Bytes) → Inbox
  stream : List Chunk → Inbox

pub record Conn : Type 0 where
  pub inbox : Inbox
  pub encoding : Encoding
  pub outbox : List Bytes
  pub write_faults : List (Option Error)

abbrev next_frame : List (Result Bytes) → Result Bytes × Inbox
next_frame [] = (err (codes "EOF"), frames [])
next_frame (r ∷ rs) = (r, frames rs)

abbrev from_stream : Result Bytes × List Chunk → Result Bytes × Inbox
from_stream (r, s) = (r, stream s)

read_inbox : Inbox → Result Bytes × Inbox
unfolding net_read_message
read_inbox (frames rs) = next_frame rs
read_inbox (stream s) = from_stream (net_read_message s)

unfoldable pub read_message : Conn → Result Bytes × Conn
unfolding read_inbox
read_message c = let (r, i) = read_inbox c.inbox in (r, record c { inbox = i })

write_at : List (Option Error) → Bytes → Conn → Option Error × Conn
write_at [] b c = (none, record c { outbox = c.outbox ++ b ∷ [] })
write_at (none ∷ ws) b c = (none, record c { outbox = c.outbox ++ b ∷ []; write_faults = ws })
write_at (some e ∷ ws) b c = (some e, record c { write_faults = ws })

-- `WriteMessage`: a write either sends the whole frame or fails.
unfoldable pub write_message : Bytes → Conn → Option Error × Conn
unfolding write_at
write_message b c = write_at c.write_faults b c

-- `SetEncoding` of the plain connection.
unfoldable pub set_encoding : Encoding → Conn → Conn
set_encoding e c = record c { encoding = e }
