-- ===== src/Netx/Tests.antt =====
-- Runs of netx.
use ndt_server.Common.{◌≡◌, ◌↔◌, ◌⊎◌, List, [], ◌∷◌, none, some, codes, Error, ok, err, pos}
use ndt_server.Bbr.Bounds.{IsAccepted, info_of}
use ndt_server.Bbr.{get_max_bandwidth_and_min_rtt}
use ndt_server.Netx.Kernel.{Answers, conn_read_info, IsRead, conn_read_info_iff}
use ndt_server.Tcp.{TcpInfo}
use ndt_server.Netx.Gauge.{IsCounted, Event, accepts, closes, after, gauge-IsCounted}
use ndt_server.Netx.{no_conns, no_bbr_info}

abbrev info : TcpInfo
info = record {
  rtt = 2000;
  snd_mss = 1400;
  segs_out = pos 10;
  bytes_acked = pos 0;
  bytes_received = pos 10000;
}

abbrev history : List Event
history =
    accepts none none
    ∷ accepts none (some (codes "dup"))
    ∷ accepts none none
    ∷ closes 0
    ∷ closes 0
    ∷ []

gauge-IsCounted_example : IsCounted (after no_conns history)
gauge-IsCounted_example = gauge-IsCounted history

-- BBR is not enabled on the connection.
abbrev answers : Answers
answers = record {
  bbr = record {
    syscall_conn = none;
    control = none;
    errno = 22;
    size = 0;
    info = record {
      bbr_bw_lo = 0;
      bbr_bw_hi = 0;
      bbr_min_rtt = 0;
      bbr_pacing_gain = 0;
      bbr_cwnd_gain = 0;
    };
  };
  tcp = record { syscall_conn = none; control = none; errno = 0; info = info };
}

conn_read_info_iff_example :
    (conn_read_info (λ n. codes "errno") answers ≡ ok (no_bbr_info, info)) ↔ (
      IsRead (λ n. codes "errno") answers.tcp
      × (info ≡ info)
      × ((IsAccepted answers.bbr × (no_bbr_info ≡ info_of answers.bbr.info))
          ⊎ ((e : Error) × (get_max_bandwidth_and_min_rtt (λ n. codes "errno") answers.bbr ≡ err e)
              × (no_bbr_info ≡ no_bbr_info))))
conn_read_info_iff_example = conn_read_info_iff (λ n. codes "errno") answers no_bbr_info info
