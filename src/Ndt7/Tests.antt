-- ===== src/Ndt7/Tests.antt =====
-- Runs of the senders and the receiver of the ndt7 subtests.
mod HandlerTests
mod MeasurerTests
mod SubtestTests
use ndt_server.Common.{
  ℕ, ◌^◌, ◌≡◌, refl, ◌++◌, map, true, false, List, [], ◌∷◌, Option, none, some, Bytes, codes, Error,
  Result, ok, err, ℤ, pos, arith, Any, replicate,
}
use ndt_server.Ndt7.Download
use ndt_server.Ndt7.Download.Closing.{Ends, closed_early, loop_early_exit, loop-Ends}
use ndt_server.Ndt7.Download.Record.{Extends, jsons, start-Extends}
use ndt_server.Ndt7.Download.Scaling.{IsScaled, quiet, start-IsScaled, loop_reaches_maximum}
use ndt_server.Ndt7.Loop.{continue, return, left_by, run}
use ndt_server.Ndt7.Model.{Measurement, TcpSample, ArchivalData, Params}
use ndt_server.Ndt7.Receiver
use ndt_server.Ndt7.Receiver.Messages.{
  drop_binary, texts, received, start_upload_binary, start_download_binary, start_bad_text,
}
use ndt_server.Ndt7.Receiver.{download_receiver, upload_receiver, Arrival, binary, text}
use ndt_server.Ndt7.Subtest.Order.{do_download_order}
use ndt_server.Ndt7.Subtest.{Outside, error_of, receive, send_download, do_download}
use ndt_server.Ndt7.Upload
use ndt_server.Ndt7.Upload.Progress.{good, recorded, with_pings, start_complete, start_write_fails}

abbrev pub fresh : ArchivalData
fresh = record {
  uuid = codes "u";
  start_time = 0;
  end_time = 0;
  server_measurements = [];
  client_measurements = [];
  client_metadata = [];
  server_metadata = [];
}

abbrev pub acked : ℕ → TcpSample
acked n = record {
  linux_tcp_info = record {
    rtt = 2000;
    snd_mss = 1400;
    segs_out = pos 10;
    bytes_acked = pos n;
    bytes_received = pos 0;
  };
  elapsed_time = pos 1000;
}

abbrev pub sample : ℕ → Measurement
sample n = record {
  app_info = none;
  connection_info = none;
  bbr_info = none;
  tcp_info = some (acked n);
}

abbrev early : Params
early = record { is_early_exit = true; max_bytes = pos 250000000 }

abbrev sending : ℕ → Download.Measured
sending n = record {
  measurement = sample n;
  write_json = none;
  send_ticks = none;
  write_close = none;
}

abbrev turns : List Download.Turn
turns = quiet ∷ Download.measured (sending 100) ∷ quiet ∷ Download.closed none ∷ []

start-IsScaled_example : IsScaled (left_by (Download.start early 1 2 none none turns fresh))
start-IsScaled_example = start-IsScaled early 1 2 none none turns fresh

abbrev after_close : Download.State
after_close = record (Download.initial fresh) {
  wire = Download.closing ∷ [];
  sender_errors = "measurer-closed" ∷ [];
}

closes_at_once :
    Download.loop early (Download.closed none ∷ []) (Download.initial fresh)
    ≡ return none after_close
unfolding run Download.step Download.start_closing
closes_at_once = refl

-- A text with one byte is a measurement, any other is none.
abbrev pub one_byte : Bytes → Option Measurement
one_byte [] = none
one_byte (x ∷ []) = some (sample x)
one_byte (x ∷ y ∷ b) = none

abbrev arrivals : List Arrival
arrivals = binary ∷ text (ok (7 ∷ [])) ∷ binary ∷ []

abbrev pub download_outside : Outside Download.Turn
download_outside = record {
  begin = 1;
  finish = 2;
  prepared = none;
  write_deadline = none;
  read_deadline = none;
  arrivals = text (ok (7 ∷ [])) ∷ [];
  turns = turns;
}
