-- ===== src/Tcpinfox.antt =====
-- tcpinfox/tcpinfox_linux.go: what the kernel's answer about a TCP connection becomes.
use ndt_server.Common.{ℕ, Option, none, some, Error, ◌==◌, if◌then◌else◌, pos}
use ndt_server.Tcp.{TcpInfo}

-- How the calls end: `SyscallConn`, `Control`, and the error number and the contents that `getsockopt` gives.
pub record Sockopt : Type 0 where
  pub syscall_conn : Option Error
  pub control : Option Error
  pub errno : ℕ
  pub info : TcpInfo

abbrev pub no_tcp_info : TcpInfo
no_tcp_info = record {
  rtt = 0;
  snd_mss = 0;
  segs_out = pos 0;
  bytes_acked = pos 0;
  bytes_received = pos 0;
}

-- The text of an error number is the library's.
module _ (errno_error : ℕ → Error) where
  abbrev after_call : Sockopt → TcpInfo × Option Error
  after_call s = (s.info, if s.errno == 0 then none else some (errno_error s.errno))

  abbrev after_control : Sockopt → Option Error → TcpInfo × Option Error
  after_control s (some e) = (no_tcp_info, some e)
  after_control s none = after_call s

  abbrev after_syscall_conn : Sockopt → Option Error → TcpInfo × Option Error
  after_syscall_conn s (some e) = (no_tcp_info, some e)
  after_syscall_conn s none = after_control s s.control

  -- `getTCPInfo`: a struct, also when there is an error.
  unfoldable pub get_tcp_info : Sockopt → TcpInfo × Option Error
  get_tcp_info s = after_syscall_conn s s.syscall_conn
