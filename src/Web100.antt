-- ===== src/Web100.antt =====
-- ndt5/web100/web100_linux.go and the `measurer` of ndt5/protocol/protocol.go: polling a
-- connection's TCP state and reducing it to the web100 variables.
pub mod Rtt
pub mod Polling
mod Tests
use ndt_server.Common.{
  ℕ, ◌+◌, ◌/◌, ◌%◌, ◌^◌, Bool, true, false, ◌||◌, List, [], ◌∷◌, Option, none, some, codes, Result,
  ok, err, ltb, ◌==◌, if◌then◌else◌, to_uint32, get_last?,
}
use ndt_server.Tcp.{TcpInfo}

-- `Metrics`, the fields that `summarize` sets; the others keep their zero value.
pub record Metrics : Type 0 where
  pub max_rtt : ℕ
  pub min_rtt : ℕ
  pub sum_rtt : ℕ
  pub count_rtt : ℕ
  pub cur_mss : ℕ
  pub pkts_out : ℕ
  pub tcp_info : TcpInfo

-- The four uint32 variables of the loop of `summarize`.
pub record Rtts : Type 0 where
  pub count : ℕ
  pub sum : ℕ
  pub maximum : ℕ
  pub minimum : ℕ

unfoldable pub add_snap : Rtts → TcpInfo → Rtts
add_snap r s = record {
  count = (r.count + 1) % 2 ^ 32;
  sum = (r.sum + s.rtt) % 2 ^ 32;
  maximum = if ltb r.maximum s.rtt then s.rtt else r.maximum;
  minimum = if ltb s.rtt r.minimum || r.minimum == 0 then s.rtt else r.minimum;
}

unfoldable pub add_snaps : Rtts → List TcpInfo → Rtts
add_snaps r [] = r
add_snaps r (s ∷ ss) = add_snaps (add_snap r s) ss

abbrev pub no_rtts : Rtts
no_rtts = record { count = 0; sum = 0; maximum = 0; minimum = 0 }

abbrev summary : Rtts → TcpInfo → Metrics
summary r last = record {
  max_rtt = r.maximum / 1000;
  min_rtt = r.minimum / 1000;
  sum_rtt = r.sum / 1000;
  count_rtt = r.count;
  cur_mss = last.snd_mss;
  pkts_out = to_uint32 last.segs_out;
  tcp_info = last;
}

-- The value is missing for the empty list only.
abbrev summary_of : Rtts → Option TcpInfo → Result Metrics
summary_of r none = err (codes "zero-length list of data collected")
summary_of r (some last) = ok (summary r last)

unfoldable pub summarize : List TcpInfo → Result Metrics
unfolding to_uint32
summarize snaps = summary_of (add_snaps no_rtts snaps) (get_last? snaps)

-- One round of the polling loop: whether the context has been cancelled when its test is made,
-- and what `ReadInfo` would give at that time.
pub record Poll : Type 0 where
  pub cancelled : Bool
  pub info : Result TcpInfo

abbrev keep_info : Result TcpInfo → List TcpInfo → List TcpInfo
keep_info (ok s) ss = s ∷ ss
keep_info (err e) ss = ss

-- The snapshots that the loop of `measureUntilContextCancellation` collects.
unfoldable pub poll_snaps : List Poll → List TcpInfo
poll_snaps [] = []
poll_snaps (p ∷ ps) = let rest = poll_snaps ps in if p.cancelled then [] else keep_info p.info rest

unfoldable pub measure_until_context_cancellation : List Poll → Result Metrics
measure_until_context_cancellation ps = summarize (poll_snaps ps)

abbrev from_channel : Result Metrics → Option Metrics
from_channel (ok m) = some m
from_channel (err e) = none

-- What a receive from the channel of `MeasureViaPolling` gives: nil if nothing was sent.
unfoldable pub measure_via_polling : List Poll → Option Metrics
measure_via_polling ps = from_channel (measure_until_context_cancellation ps)

-- `measurer`: the channel as what a receive gives. A new one is a closed channel.
pub record Measurer : Type 0 where
  pub summary_c : Option Metrics

unfoldable pub new_measurer : Measurer
new_measurer = record { summary_c = none }

-- `polls` are the rounds up to the cancellation, by `StopMeasuring` or by the context.
unfoldable pub start_measuring : List Poll → Measurer → Measurer
start_measuring ps m = record m { summary_c = measure_via_polling ps }

abbrev pub or_no_data : Option Metrics → Result Metrics
or_no_data none = err (codes "No data returned from web100.MeasureViaPolling due to nil")
or_no_data (some m) = ok m

unfoldable pub stop_measuring : Measurer → Result Metrics
stop_measuring m = or_no_data m.summary_c
