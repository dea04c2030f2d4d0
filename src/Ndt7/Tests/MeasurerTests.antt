-- ===== src/Ndt7/Tests/MeasurerTests.antt =====
-- Runs of the ndt7 measurer.
use ndt_server.Common.{
  ◌≡◌, [], List, All, ◌∷◌, ◌≤◌, ◌⊎◌, refl, codes, ok, err, pos, none, atoi, atoi-itoa, format_int,
}
use ndt_server.Ndt7.Download.Sampled.{start_sampled}
use ndt_server.Ndt7.Download.{Turn, measured, closed, start as start_download}
use ndt_server.Ndt7.Loop.{left_by}
use ndt_server.Ndt7.Measurer.Ends.{Moves, stay, more, CanGoOn, stop-Moves}
use ndt_server.Ndt7.Measurer.Sampling.{IsSample, IsSound, Reach-IsSound}
use ndt_server.Ndt7.Measurer.{
  State, sample, stopped, ticker_made, ticked, consumed, stop_called, drained, ticks_ended,
  stop_returned, Reach, start, later,
}
use ndt_server.Ndt7.Model.{ConnectionInfo, BbrInfo}
use ndt_server.Ndt7.Tests.{early, fresh}
use ndt_server.Ndt7.Ping.{IntJson, send_ticks}
use ndt_server.Tcp.{TcpInfo}

abbrev connection : ConnectionInfo
connection = record {
  client = codes "10.0.0.2:5000";
  server = codes "10.0.0.1:443";
  uuid = codes "u";
}

abbrev bbr : BbrInfo
bbr = record { bw = pos 1; min_rtt = 2; pacing_gain = 3; cwnd_gain = 4; elapsed_time = pos 0 }

abbrev tcp : TcpInfo
tcp = record { rtt = 2; snd_mss = 1; segs_out = pos 1; bytes_acked = pos 1; bytes_received = pos 0 }

-- A tick with both samples is consumed, then `Stop` is called while one without samples is being sent.
abbrev stopping : (s : State) × Reach connection s
stopping = (
  _,
  later
      (later
        (later (later (later start (ticker_made refl)) (ticked 25000000 (ok (bbr, tcp)) refl refl))
          (consumed (sample connection 25000000 (ok (bbr, tcp))) refl refl))
        (ticked 50000000 (err (codes "closed")) refl refl))
      (stop_called refl),
)

Reach-IsSound_example : IsSound connection stopping.0
Reach-IsSound_example = Reach-IsSound connection stopping.1

abbrev stopped_at : (t : State) × Moves connection stopping.0 3 t
stopped_at = (
  _,
  more
      (more (more stay (drained (sample connection 50000000 (err (codes "closed"))) refl refl))
        (ticks_ended refl refl))
      (stop_returned refl refl),
)

stop-Moves_example : (3 ≤ 3) × ((stopped_at.0.stop ≡ stopped) ⊎ CanGoOn connection stopped_at.0)
stop-Moves_example = stop-Moves connection stopping.0 stopped_at.0 3 refl refl stopped_at.1

-- `strconv.Atoi` reads what `json.Marshal` writes for an int64.
abbrev int_json : IntJson
int_json = record {
  unmarshal_int = atoi;
  unmarshal_int-format_int = λ n h. unfold format_int in atoi-itoa n h;
}

-- The sender takes the one measurement that the consumer has received.
abbrev one_sample : List Turn
one_sample =
    measured (record {
      measurement = sample connection 25000000 (ok (bbr, tcp));
      write_json = none;
      send_ticks = none;
      write_close = none;
    })
    ∷ closed none
    ∷ []

start_sampled_example :
    All
      (IsSample connection)
      (left_by (start_download early 1 2 none none one_sample fresh)).archival.server_measurements
start_sampled_example =
    start_sampled connection stopping.0 early 1 2 none none one_sample fresh stopping.1 refl refl
