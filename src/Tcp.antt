-- ===== src/Tcp.antt =====
-- The fields of `tcp.LinuxTCPInfo`, a struct of the package tcp-info, that the program reads.
use ndt_server.Common.{ℕ, ℤ}

-- `rtt` and `snd_mss` are uint32, in microseconds and bytes; `bytes_acked` and `bytes_received`
-- are int64.
pub record TcpInfo : Type 0 where
  pub rtt : ℕ
  pub snd_mss : ℕ
  pub segs_out : ℤ
  pub bytes_acked : ℤ
  pub bytes_received : ℤ
