-- ===== src/Protocol/Identity/Panics.antt =====
-- A connection that `netx` accepted has an identity, over a websocket and over a TCP socket alike
-- (ndt5/protocol/protocol.go, netx/net.go).
use ndt_server.Common.{ℕ, ◌≡◌, refl, ◌⊎◌, inl, inr, List, Bytes, some}
use ndt_server.Netx.{
  returns, panics, wrapped, tcp_addr, other_addr, conn_addr, to_tcp_addr, NetConn, plain_conn,
  tls_conn, other_conn, to_conn_info, get_uuid,
}
use ndt_server.Protocol.Identity.{
  Socket, ws_uuid, net_uuid, ws_server_ip_and_port, ws_client_ip_and_port, net_server_ip_and_port,
  net_client_ip_and_port, ws_start_measuring, net_start_measuring,
}
use ndt_server.Protocol.Transfer.{bad_uuid}
use ndt_server.Web100.{Poll, Measurer, start_measuring}

-- A socket that `Listener.Accept` gave as the connection of this number, between these TCP addresses, or a TLS
-- connection over it, which asks it for its local address.
abbrev pub IsOver : ℕ → Bytes × ℕ → Bytes × ℕ → Socket → Type 0
IsOver i (ip, port) (client_ip, client_port) s =
    ((s.underlying ≡ plain_conn i) ⊎ (s.underlying ≡ tls_conn (conn_addr i (tcp_addr ip port))))
    × (s.local_addr ≡ conn_addr i (tcp_addr ip port))
    × (s.remote_addr ≡ conn_addr i (tcp_addr client_ip client_port))

IsOver-info :
    (i : ℕ) (server client : Bytes × ℕ) (s : Socket)
    → IsOver i server client s
    → to_conn_info s.underlying ≡ returns (some i)
unfolding to_conn_info conn_addr
IsOver-info i (ip, port) (cip, cport) s (inl p, l, r) = rw p refl
IsOver-info i (ip, port) (cip, cport) s (inr p, l, r) = rw p refl

-- For a connection that `netx` accepted, plain or under TLS, the websocket and the TCP socket agree: neither
-- panics, the UUID is the one that `GetUUID` gives, the addresses are the two TCP addresses, and the
-- measurement starts.
pub accepted-IsIdentified :
    (i : ℕ) (server client : Bytes × ℕ) (s : Socket) (polls : List Poll) (m : Measurer)
    → IsOver i server client s
    → (ws_uuid s ≡ get_uuid s.cookie_uuid s.fallback_uuid)
      × (net_uuid s ≡ get_uuid s.cookie_uuid s.fallback_uuid)
      × (ws_server_ip_and_port s ≡ returns server)
      × (net_server_ip_and_port s ≡ returns server)
      × (ws_client_ip_and_port s ≡ returns client)
      × (net_client_ip_and_port s ≡ returns client)
      × (ws_start_measuring s polls m ≡ returns (start_measuring polls m))
      × (net_start_measuring s polls m ≡ returns (start_measuring polls m))
unfolding ws_uuid net_uuid ws_server_ip_and_port ws_client_ip_and_port net_server_ip_and_port
    net_client_ip_and_port ws_start_measuring net_start_measuring to_tcp_addr conn_addr
accepted-IsIdentified i (ip, port) (cip, cport) s polls m h =
    let info = IsOver-info i (ip, port) (cip, cport) s h in
    (
      rw info refl,
      rw info refl,
      rw (h.1) refl,
      rw (h.1) refl,
      rw (h.2) refl,
      rw (h.2) refl,
      rw info refl,
      rw info refl,
    )

differ :
    (s : Socket) (c : NetConn)
    → s.underlying ≡ c
    → (ws_uuid s ≡ net_uuid s)
      ⊎ ((s.underlying ≡ other_conn) × (ws_uuid s ≡ panics) × (net_uuid s ≡ returns bad_uuid))
unfolding ws_uuid net_uuid to_conn_info
differ s (plain_conn i) h = inl (rw h refl)
differ s (tls_conn (wrapped a i)) h = inl (rw h refl)
differ s (tls_conn (tcp_addr ip port)) h = inl (rw h refl)
differ s (tls_conn other_addr) h = inl (rw h refl)
differ s other_conn h = inr (h, rw h refl, rw h refl)

-- The two ways to find the UUID agree for every socket, except for one of a type that `netx` does not know: there the TCP
-- connection has the UUID that stands for an error, and the websocket panics.
pub ws_uuid-net_uuid :
    (s : Socket)
    → (ws_uuid s ≡ net_uuid s)
      ⊎ ((s.underlying ≡ other_conn) × (ws_uuid s ≡ panics) × (net_uuid s ≡ returns bad_uuid))
ws_uuid-net_uuid s = differ s s.underlying refl
