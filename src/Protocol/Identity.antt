-- ===== src/Protocol/Identity.antt =====
-- ndt5/protocol/protocol.go: who the two ends of a connection are, its UUID and its measurement, over a websocket and
-- over a TCP socket. `netx.ToConnInfo` gives a nil interface for a connection that it does not know, and
-- `netx.ToTCPAddr` a nil pointer for an address that it does not know.
pub mod Panics
use ndt_server.Common.{
  ℕ, ◌≡◌, ◌++◌, Bool, true, false, List, [], ◌∷◌, Option, none, some, Bytes, Error, codes, Result,
  ok, err, if◌then◌else◌,
}
use ndt_server.Netx.{
  Outcome, returns, panics, exits, Addr, to_tcp_addr, NetConn, to_conn_info, get_uuid,
}
use ndt_server.Protocol.Kind.{Encoding, encoding_string}
use ndt_server.Protocol.Transfer.{bad_uuid}
use ndt_server.Web100.{Poll, Measurer, start_measuring}

-- A socket: the connection that `netx` sees, its addresses with their strings, and what `GetUUID` meets.
pub record Socket : Type 0 where
  pub underlying : NetConn
  pub local_addr : Addr
  pub remote_addr : Addr
  pub local_string : Bytes
  pub remote_string : Bytes
  pub cookie_uuid : Result Bytes
  pub fallback_uuid : Result Bytes

-- The UUID by a `ConnInfo` that is not nil; its `GetUUID` never returns an error.
abbrev uuid_by : Socket → Outcome Bytes
uuid_by s = get_uuid s.cookie_uuid s.fallback_uuid

abbrev ws_uuid_by : Socket → Outcome (Option ℕ) → Outcome Bytes
ws_uuid_by s (returns (some i)) = uuid_by s
ws_uuid_by s (returns none) = panics
ws_uuid_by s panics = panics
ws_uuid_by s exits = exits

-- `UUID` of a `wsConnection`: a method call on a nil interface panics.
unfoldable pub ws_uuid : Socket → Outcome Bytes
ws_uuid s = ws_uuid_by s (to_conn_info s.underlying)

abbrev net_uuid_by : Socket → Outcome (Option ℕ) → Outcome Bytes
net_uuid_by s (returns (some i)) = uuid_by s
net_uuid_by s (returns none) = returns bad_uuid
net_uuid_by s panics = panics
net_uuid_by s exits = exits

-- `UUID` of a `netConnection`.
unfoldable pub net_uuid : Socket → Outcome Bytes
net_uuid s = net_uuid_by s (to_conn_info s.underlying)

-- `addr.IP.String(), addr.Port`: the fields of a nil pointer cannot be read.
abbrev ip_and_port : Outcome (Option (Bytes × ℕ)) → Outcome (Bytes × ℕ)
ip_and_port (returns (some a)) = returns a
ip_and_port (returns none) = panics
ip_and_port panics = panics
ip_and_port exits = exits

-- The methods of a `wsConnection`.
unfoldable pub ws_server_ip_and_port : Socket → Outcome (Bytes × ℕ)
ws_server_ip_and_port s = ip_and_port (to_tcp_addr s.local_addr)

unfoldable pub ws_client_ip_and_port : Socket → Outcome (Bytes × ℕ)
ws_client_ip_and_port s = ip_and_port (to_tcp_addr s.remote_addr)

unfoldable pub ws_string : Socket → Bytes
ws_string s = s.local_string ++ (codes "<=WS(S),JSON=>" ++ s.remote_string)

-- The methods of a `netConnection`.
unfoldable pub net_server_ip_and_port : Socket → Outcome (Bytes × ℕ)
net_server_ip_and_port s = ip_and_port (to_tcp_addr s.local_addr)

unfoldable pub net_client_ip_and_port : Socket → Outcome (Bytes × ℕ)
net_client_ip_and_port s = ip_and_port (to_tcp_addr s.remote_addr)

unfoldable pub net_string : Encoding → Socket → Bytes
net_string e s =
    s.local_string ++ (codes "<=PLAIN," ++ (encoding_string e ++ (codes "=>" ++ s.remote_string)))

-- Whether the polling loop calls `ReadInfo` at all.
abbrev is_polled : List Poll → Bool
is_polled [] = false
is_polled (p ∷ ps) = if p.cancelled then false else true

-- A goroutine that polls a nil `ConnInfo` panics, which ends the process.
abbrev measured_by : List Poll → Measurer → Outcome (Option ℕ) → Outcome Measurer
measured_by polls m (returns (some i)) = returns (start_measuring polls m)
measured_by polls m (returns none) =
    if is_polled polls then exits else returns (start_measuring polls m)
measured_by polls m panics = panics
measured_by polls m exits = exits

-- `StartMeasuring` of a `wsConnection` and of a `netConnection`, with the rounds of polling up to the cancellation.
unfoldable pub ws_start_measuring : Socket → List Poll → Measurer → Outcome Measurer
ws_start_measuring s polls m = measured_by polls m (to_conn_info s.underlying)

unfoldable pub net_start_measuring : Socket → List Poll → Measurer → Outcome Measurer
net_start_measuring s polls m = measured_by polls m (to_conn_info s.underlying)
