-- ===== src/Netx.antt =====
-- netx/net.go: connections whose file descriptor stays reachable, and the gauge of open ones.
pub mod Gauge
pub mod Addresses
pub mod Kernel
mod Tests
use ndt_server.Common.{
  ℕ, zero, suc, ◌+◌, ◌-◌, Bool, true, false, List, [], ◌∷◌, ◌++◌, Option, none, some, Bytes, Error,
  codes, Result, ok, err, length, pos,
}
use ndt_server.Ndt7.Model.{BbrInfo}
use ndt_server.Tcp.{TcpInfo}

-- What a `Conn` owns: how often its two descriptors have been closed, and whether its `once` is spent.
pub record Conn : Type 0 where
  pub fp_closes : ℕ
  pub tcp_closes : ℕ
  pub once_done : Bool

-- `CurrentOpenConns`, the connections that `Accept` has returned, oldest first, and the TCP
-- connections that it closed itself.
pub record World : Type 0 where
  pub current_open_conns : ℕ
  pub conns : List Conn
  pub dropped : ℕ

abbrev pub no_conns : World
no_conns = record { current_open_conns = 0; conns = []; dropped = 0 }

abbrev new_conn : Conn
new_conn = record { fp_closes = 0; tcp_closes = 0; once_done = false }

accept_dup : Option Error → World → Result ℕ × World
accept_dup (some e) w = (err e, record w { dropped = w.dropped + 1 })
accept_dup none w = (
  ok (length w.conns),
  record w { current_open_conns = w.current_open_conns + 1; conns = w.conns ++ new_conn ∷ [] },
)

-- `Accept`, which returns the number of the connection: how `AcceptTCP` and `DupFile` end. Setting the
-- keepalive has no effect that the program sees.
unfoldable pub accept : Option Error → Option Error → World → Result ℕ × World
unfolding accept_dup
accept (some e) dup w = (err e, w)
accept none dup w = accept_dup dup w

close_conn : Conn → Conn
close_conn c = record {
  fp_closes = c.fp_closes + 1;
  tcp_closes = c.tcp_closes + 1;
  once_done = true;
}

-- What `once.Do(CurrentOpenConns.Dec)` does to the gauge.
dec_once : Bool → ℕ → ℕ
dec_once true g = g
dec_once false g = g - 1

close_in : ℕ → List Conn → ℕ → List Conn × ℕ
unfolding close_conn dec_once
close_in i [] g = ([], g)
close_in zero (c ∷ cs) g = (close_conn c ∷ cs, dec_once c.once_done g)
close_in (suc i) (c ∷ cs) g = let (ds, g') = close_in i cs g in (c ∷ ds, g')

-- `Close` of the connection with this number.
unfoldable pub close : ℕ → World → World
unfolding close_in
close i w =
    let (cs, g) = close_in i w.conns w.current_open_conns in
    record w { conns = cs; current_open_conns = g }

-- An empty `inetdiag.BBRInfo`; the elapsed time is the measurer's, and not set here.
abbrev pub no_bbr_info : BbrInfo
no_bbr_info = record {
  bw = pos 0;
  min_rtt = 0;
  pacing_gain = 0;
  cwnd_gain = 0;
  elapsed_time = pos 0;
}

abbrev pub or_no_bbr : Result BbrInfo → BbrInfo
or_no_bbr (ok b) = b
or_no_bbr (err e) = no_bbr_info

-- `ReadInfo`, from what `GetBBRInfo` and `GetTCPInfo` return.
unfoldable pub read_info : Result BbrInfo → Result TcpInfo → Result (BbrInfo × TcpInfo)
read_info b (ok t) = ok (or_no_bbr b, t)
read_info b (err e) = err e

-- A Go call that may panic, or end the process, as `rtx.Must` does.
pub data Outcome {ℓ} (A : Type ℓ) : Type ℓ where
  returns : A → Outcome A
  panics exits : Outcome A

-- `GetUUID`, from what the kernel's cookie gives and what `guuid.NewUUID` would.
unfoldable pub get_uuid : Result Bytes → Result Bytes → Outcome Bytes
get_uuid (ok id) fallback = returns id
get_uuid (err e) (ok id) = returns id
get_uuid (err e) (err f) = exits

-- A `net.Addr`: an `*Addr`, with its parent's number, a `*net.TCPAddr`, or of another type.
pub data Addr : Type 0 where
  wrapped : Addr → ℕ → Addr
  tcp_addr : Bytes → ℕ → Addr
  other_addr : Addr

-- `LocalAddr` and `RemoteAddr` of the connection with this number.
unfoldable pub conn_addr : ℕ → Addr → Addr
conn_addr i a = wrapped a i

unfoldable pub to_tcp_addr : Addr → Outcome (Option (Bytes × ℕ))
to_tcp_addr (wrapped (tcp_addr ip port) i) = returns (some (ip, port))
to_tcp_addr (wrapped (wrapped a j) i) = panics
to_tcp_addr (wrapped other_addr i) = panics
to_tcp_addr (tcp_addr ip port) = returns (some (ip, port))
to_tcp_addr other_addr = returns none

-- A `net.Conn`: a `*Conn`, by its number, a `*tls.Conn`, by its local address, or of another type.
pub data NetConn : Type 0 where
  plain_conn : ℕ → NetConn
  tls_conn : Addr → NetConn
  other_conn : NetConn

unfoldable pub to_conn_info : NetConn → Outcome (Option ℕ)
to_conn_info (plain_conn i) = returns (some i)
to_conn_info (tls_conn (wrapped a i)) = returns (some i)
to_conn_info (tls_conn (tcp_addr ip port)) = panics
to_conn_info (tls_conn other_addr) = panics
to_conn_info other_conn = returns none
