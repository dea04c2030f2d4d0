-- ===== src/Ndt5/Plain.antt =====
-- ndt5/plain/plain.go: the server that tells plain TCP clients from HTTP clients by the first three bytes.
-- A connection is what arrives on it, as in `Protocol.Conn`; the context of a forwarded connection and
-- the dial are given by how they end.
pub mod Sniff
pub mod Clients
pub mod Forwarding
use ndt_server.Common.{
  ◌-◌, Bool, true, false, List, [], ◌∷◌, ◌++◌, Option, none, some, Bytes, Error, codes, Result, ok,
  err, ℕ, length, take, drop, leb, equal, Float, if◌then◌else◌,
}
use ndt_server.Ndt5.Control.{Server, handle_control_channel}
use ndt_server.Ndt5.Control
use ndt_server.Ndt5.Login.{plain_login}
use ndt_server.Ndt5.S2c.{Shown}
use ndt_server.Protocol.Conn.{Chunk, arrives, fails, keep_rest, Conn, stream, write_message}
use ndt_server.Protocol.Json.{Json}
use ndt_server.Protocol.Kind.{unknown}

-- The size of the buffer of `bufio.NewReader`.
abbrev pub buffer_size : ℕ
buffer_size = 4096

-- `Peek(3)` of a `bufio.Reader` with `buf` in its buffer: it reads until there are three bytes. What is read
-- stays in the buffer, from which the next reads are served, before what has not been read.
unfoldable pub peek_onto : Bytes → List Chunk → Result Bytes × List Chunk
peek_onto buf [] = (err (codes "EOF"), keep_rest buf [])
peek_onto buf (fails e ∷ s) = (err e, keep_rest buf s)
peek_onto buf (arrives b ∷ s) =
    let filled = buf ++ take (buffer_size - length buf) b in
    let more = peek_onto filled s in
    if leb 3 (length filled)
    then (ok (take 3 filled), keep_rest filled (keep_rest (drop (buffer_size - length buf) b) s))
    else more

unfoldable pub peek : List Chunk → Result Bytes × List Chunk
peek s = peek_onto [] s

-- How `ctx.Err()` is after the wait for a forwarded connection.
pub data ContextEnd : Type 0 where
  canceled deadline_exceeded : ContextEnd

-- A connection that the server accepts: what arrives, how the writes to it end, how the dial to the websocket
-- server ends, and the wait for the two copies.
pub record Accepted : Type 0 where
  pub input : List Chunk
  pub write_faults : List (Option Error)
  pub dialed : Option Error
  pub context_end : ContextEnd

-- The counters of sniffed clients and of timeouts, the bytes that `input` has for the websocket server, the
-- closes, and what the control channel does.
pub data Effect (F : Type 0) : Type 0 where
  proxied_counted timeout_counted fwd_closed conn_closed : Effect F
  forwarded : List Chunk → Effect F
  controlled : Control.Effect F → Effect F

abbrev pub kickoff : Bytes
kickoff = codes "123456 654321"

-- `protocol.AdaptNetConn(conn, input)`.
unfoldable pub adapt_net_conn : List Chunk → List (Option Error) → Conn
adapt_net_conn s faults = record {
  inbox = stream s;
  encoding = unknown;
  outbox = [];
  write_faults = faults;
}

abbrev timed_out : {F : Type 0} → ContextEnd → List (Effect F)
timed_out canceled = []
timed_out deadline_exceeded = timeout_counted ∷ []

-- The case of an HTTP client, after the dial.
unfoldable pub forward : {F : Type 0} → List Chunk → ContextEnd → Option Error → List (Effect F)
forward s end (some e) = []
forward s end none = forwarded s ∷ timed_out end ++ fwd_closed ∷ []

module _ (fl : Float) (J : Json) (shown : Shown fl.F) (trim_space : Bytes → Bytes)
    (panic_message : Bytes → Error → Bytes) where
  open fl use {F}

  abbrev pub all_controlled : List (Control.Effect F) → List (Effect F)
  all_controlled [] = []
  all_controlled (x ∷ fx) = controlled x ∷ all_controlled fx

  -- The case of a plain client: a kickoff message that cannot be written is only logged.
  unfoldable pub kick_off : Server F → List Chunk → List (Option Error) → List (Effect F)
  kick_off server s faults = all_controlled (
      handle_control_channel fl J shown trim_space panic_message
        (record server { login_ceremony = plain_login J })
        (write_message kickoff (adapt_net_conn s faults)).1)

  unfoldable pub after_peek : Server F → Accepted → Result Bytes × List Chunk → List (Effect F)
  after_peek server a (err e, s) = []
  after_peek server a (ok lead, s) =
      if equal lead (codes "GET")
      then proxied_counted ∷ forward s a.context_end a.dialed
      else kick_off server s a.write_faults

  -- `sniffThenHandle`, with the deferred close.
  unfoldable pub sniff_then_handle : Server F → Accepted → List (Effect F)
  sniff_then_handle server a = after_peek server a (peek a.input) ++ conn_closed ∷ []

-- A round of the accepting loop: whether the context is done at its test, and what `Accept` gives.
pub record Round : Type 0 where
  pub cancelled : Bool
  pub accepted : Result Accepted

abbrev with_accepted : Result Accepted → List Accepted → List Accepted
with_accepted (err e) rest = rest
with_accepted (ok a) rest = a ∷ rest

-- The connections that the loop hands to `sniffThenHandle`, each in a goroutine of its own. The script
-- of rounds ends where the program does.
unfoldable pub accept_loop : List Round → List Accepted
accept_loop [] = []
accept_loop (r ∷ rs) =
    let rest = accept_loop rs in if r.cancelled then [] else with_accepted r.accepted rest

-- `ListenAndServe`, by how `net.Listen` ends: its result, and the connections that are handled.
unfoldable pub listen_and_serve : Option Error → List Round → Option Error × List Accepted
listen_and_serve (some e) rs = (some e, [])
listen_and_serve none rs = (none, accept_loop rs)
