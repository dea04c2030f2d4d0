-- ===== src/Bbr/Bounds.antt =====
-- When the kernel's answer about BBR is accepted (bbr/bbr_linux.go).
use ndt_server.Bbr.{TcpBbrInfo, Sockopt, sizeof_tcp_bbr_info, get_max_bandwidth_and_min_rtt}
use ndt_server.Common.{ℕ, ◌+◌, ◌*◌, ◌^◌, ◌<◌, ◌≡◌, ◌↔◌, none, Error, ok, pos, arith}
use ndt_server.Ndt7.Model.{BbrInfo}

-- The info in the units of ndt7.
abbrev pub info_of : TcpBbrInfo → BbrInfo
info_of i = record {
  bw = pos (i.bbr_bw_hi * 2 ^ 32 + i.bbr_bw_lo);
  min_rtt = i.bbr_min_rtt;
  pacing_gain = i.bbr_pacing_gain;
  cwnd_gain = i.bbr_cwnd_gain;
  elapsed_time = pos 0;
}

-- What `GetBBRInfo` wants of the calls and of their answer.
abbrev pub IsAccepted : Sockopt → Type 0
IsAccepted s =
    (s.syscall_conn ≡ none)
    × (s.control ≡ none)
    × (s.errno ≡ 0)
    × (s.size ≡ sizeof_tcp_bbr_info)
    × (s.info.bbr_bw_hi * 2 ^ 32 + s.info.bbr_bw_lo < 2 ^ 63)

module _ (errno_error : ℕ → Error) where
  -- BBR info is returned exactly when no call fails, the kernel's answer has the size of BBR's struct, and
  -- the bandwidth fits an int64, so that it never turns negative; it is then the 64-bit number of the two words, and the
  -- other fields are the kernel's.
  pub get_max_bandwidth_iff :
      (s : Sockopt) (b : BbrInfo)
      → (get_max_bandwidth_and_min_rtt errno_error s ≡ ok b) ↔ (IsAccepted s × (b ≡ info_of s.info))
  unfolding get_max_bandwidth_and_min_rtt
  get_max_bandwidth_iff s b = ground arith
