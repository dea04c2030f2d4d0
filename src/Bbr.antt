-- ===== src/Bbr.antt =====
-- bbr/bbr_linux.go and bbr/bbr.go: what the kernel's answer about BBR becomes.
pub mod Bounds
mod Tests
use ndt_server.Common.{
  ℕ, ◌+◌, ◌*◌, ◌-◌, ◌^◌, Option, none, some, Error, codes, Result, ok, err, pos, leb, ltb, ◌==◌,
  if◌then◌else◌,
}
use ndt_server.Ndt7.Model.{BbrInfo}

-- `struct tcp_bbr_info`, five 32-bit words.
pub record TcpBbrInfo : Type 0 where
  pub bbr_bw_lo : ℕ
  pub bbr_bw_hi : ℕ
  pub bbr_min_rtt : ℕ
  pub bbr_pacing_gain : ℕ
  pub bbr_cwnd_gain : ℕ

-- How the calls end: `SyscallConn`, `Control`, and the error number, the size and the contents that `getsockopt` gives.
pub record Sockopt : Type 0 where
  pub syscall_conn : Option Error
  pub control : Option Error
  pub errno : ℕ
  pub size : ℕ
  pub info : TcpBbrInfo

abbrev pub enosys : ℕ
enosys = 38

abbrev pub sizeof_tcp_bbr_info : ℕ
sizeof_tcp_bbr_info = 20

-- `ErrNoSupport`.
abbrev pub no_support : Error
no_support = codes "TCP_CC_INFO not supported"

-- The text of an error number is the library's.
module _ (errno_error : ℕ → Error) where
  abbrev converted : TcpBbrInfo → Result BbrInfo
  converted i =
      if ltb (2 ^ 63 - 1) (i.bbr_bw_hi * 2 ^ 32 + i.bbr_bw_lo)
      then err (codes "value too large for defined data type")
      else ok (record {
        bw = pos (i.bbr_bw_hi * 2 ^ 32 + i.bbr_bw_lo);
        min_rtt = i.bbr_min_rtt;
        pacing_gain = i.bbr_pacing_gain;
        cwnd_gain = i.bbr_cwnd_gain;
        elapsed_time = pos 0;
      })

  abbrev after_call : Sockopt → Result BbrInfo
  after_call s =
      if s.errno == 0
      then if s.size == sizeof_tcp_bbr_info
        then converted s.info
        else err (codes "invalid argument")
      else if s.errno == enosys
      then err no_support
      else err (errno_error s.errno)

  abbrev after_control : Sockopt → Option Error → Result BbrInfo
  after_control s (some e) = err e
  after_control s none = after_call s

  abbrev after_syscall_conn : Sockopt → Option Error → Result BbrInfo
  after_syscall_conn s (some e) = err e
  after_syscall_conn s none = after_control s s.control

  -- `getMaxBandwidthAndMinRTT`.
  unfoldable pub get_max_bandwidth_and_min_rtt : Sockopt → Result BbrInfo
  get_max_bandwidth_and_min_rtt s = after_syscall_conn s s.syscall_conn

-- How the calls of `enableBBR` end: `SyscallConn`, `Control` and `setsockopt`.
pub record SetOption : Type 0 where
  pub syscall_conn : Option Error
  pub control : Option Error
  pub setsockopt : Option Error

abbrev or_else : Option Error → Option Error → Option Error
or_else (some e) f = some e
or_else none f = f

-- `enableBBR`.
unfoldable pub enable_bbr : SetOption → Option Error
enable_bbr s = or_else s.syscall_conn (or_else s.control s.setsockopt)
