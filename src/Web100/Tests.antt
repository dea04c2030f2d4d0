-- ===== src/Web100/Tests.antt =====
-- Runs of the web100 measurements.
use ndt_server.Common.{ℕ, ◌≡◌, refl, true, [], ◌∷◌, ok, pos, arith}
use ndt_server.Tcp.{TcpInfo}
use ndt_server.Web100.Rtt.{AreExtremes, summarize_extremes}
use ndt_server.Web100.{Metrics, Poll, add_snap, add_snaps, summarize}

abbrev snap : ℕ → TcpInfo
snap rtt = record {
  rtt = rtt;
  snd_mss = 1400;
  segs_out = pos 10;
  bytes_acked = pos 0;
  bytes_received = pos 0;
}

abbrev summarized : ℕ → ℕ → ℕ → ℕ → TcpInfo → Metrics
summarized high low total n last = record {
  max_rtt = high;
  min_rtt = low;
  sum_rtt = total;
  count_rtt = n;
  cur_mss = 1400;
  pkts_out = 10;
  tcp_info = last;
}

summarize_two : summarize (snap 2000 ∷ snap 3000 ∷ []) ≡ ok (summarized 3 2 5 2 (snap 3000))
unfolding summarize add_snaps add_snap
summarize_two = refl

summarize_extremes_example : AreExtremes 2 3 (snap 2000 ∷ snap 3000 ∷ [])
summarize_extremes_example =
    summarize_extremes (snap 2000 ∷ snap 3000 ∷ []) (summarized 3 2 5 2 (snap 3000))
      (omega arith, (omega arith, tt)) summarize_two

summarize_three :
    summarize (snap 2000 ∷ snap 0 ∷ snap 3000 ∷ []) ≡ ok (summarized 3 3 5 3 (snap 3000))
unfolding summarize add_snaps add_snap
summarize_three = refl

summarize_one : summarize (snap 3000 ∷ []) ≡ ok (summarized 3 3 3 1 (snap 3000))
unfolding summarize add_snaps add_snap
summarize_one = refl

abbrev cancelled : Poll
cancelled = record { cancelled = true; info = ok (snap 1) }
