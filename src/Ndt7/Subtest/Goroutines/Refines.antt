-- ===== src/Ndt7/Subtest/Goroutines/Refines.antt =====
-- The two goroutines of a subtest leave what `Ndt7.Subtest` says.
use ndt_server.Common.{◌≡◌, Option, Bytes, Error}
use ndt_server.Ndt7.Download
use ndt_server.Ndt7.Model.{Measurement, ArchivalData, Params}
use ndt_server.Ndt7.Receiver.{download_receiver, upload_receiver}
use ndt_server.Ndt7.Subtest.Goroutines.Alone.{Reach-alone}
use ndt_server.Ndt7.Subtest.Goroutines.Senders.{
  download_sender-IsSeparate, upload_sender-IsSeparate,
}
use ndt_server.Ndt7.Subtest.Goroutines.{
  completed, returned, State, Reach, download_sender, upload_sender,
}
use ndt_server.Ndt7.Subtest.{Outside, do_download, do_upload}
use ndt_server.Ndt7.Upload

module _ (decode : Bytes → Option Measurement) where
  -- However the rounds of the sender and of the receiver interleave on the shared data: when `Do` of a download has
  -- returned and the receiver has completed, the error and the data are those of `do_download`, which runs the
  -- receiver after the sender, on what the two loops have met.
  pub Reach-do_download :
      (p : Params) (o : Outside Download.Turn) (d : ArchivalData)
      (s : State Download.Turn Download.State) (e : Option Error)
      → Reach decode download_receiver o.read_deadline (download_sender p o) d s
      → s.at ≡ returned e
      → s.reading ≡ completed
      → do_download decode p (record o { arrivals = s.arrivals; turns = s.turns }) d
        ≡ (e, s.archival)
  unfolding do_download
  Reach-do_download p o d =
      Reach-alone decode download_receiver o.read_deadline (download_sender p o)
        (download_sender-IsSeparate p o) d

  -- The same of an upload and `do_upload`: however the rounds of the sender and of the receiver interleave on the
  -- shared data, when `Do` has returned and the receiver has completed, the error and the data are those of the
  -- receiver after the sender, on what the two loops have met.
  pub Reach-do_upload :
      (o : Outside Upload.Turn) (d : ArchivalData) (s : State Upload.Turn Upload.State)
      (e : Option Error)
      → Reach decode upload_receiver o.read_deadline (upload_sender o) d s
      → s.at ≡ returned e
      → s.reading ≡ completed
      → do_upload decode (record o { arrivals = s.arrivals; turns = s.turns }) d ≡ (e, s.archival)
  unfolding do_upload
  Reach-do_upload o d =
      Reach-alone decode upload_receiver o.read_deadline (upload_sender o)
        (upload_sender-IsSeparate o) d
