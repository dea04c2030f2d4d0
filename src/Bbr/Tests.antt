-- ===== src/Bbr/Tests.antt =====
-- A run of the conversion of BBR info.
use ndt_server.Bbr.Bounds.{info_of}
use ndt_server.Bbr.{TcpBbrInfo, Sockopt, sizeof_tcp_bbr_info, get_max_bandwidth_and_min_rtt}
use ndt_server.Common.{◌≡◌, refl, none, [], ok}

abbrev answer : TcpBbrInfo
answer = record {
  bbr_bw_lo = 7;
  bbr_bw_hi = 1;
  bbr_min_rtt = 20;
  bbr_pacing_gain = 739;
  bbr_cwnd_gain = 739;
}

abbrev good_call : Sockopt
good_call = record {
  syscall_conn = none;
  control = none;
  errno = 0;
  size = sizeof_tcp_bbr_info;
  info = answer;
}

good_call_info : get_max_bandwidth_and_min_rtt (λ n. []) good_call ≡ ok (info_of answer)
unfolding get_max_bandwidth_and_min_rtt
good_call_info = refl
