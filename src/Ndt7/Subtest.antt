-- ===== src/Ndt7/Subtest.antt =====
-- ndt7/download/download.go and ndt7/upload/upload.go: `Do` runs the receiver beside the sender on the
-- same archival data, and waits for both. They write different fields, so the model runs them one after
-- the other; `Ndt7.Subtest.Order` is about their order, and `Ndt7.Subtest.Goroutines` has their interleavings.
pub mod Order
pub mod Goroutines
use ndt_server.Common.{ℕ, List, Option, none, some, Bytes, Error, Bool, true, false}
use ndt_server.Ndt7.Download
use ndt_server.Ndt7.Loop.{Step, continue, return, left_by}
use ndt_server.Ndt7.Model.{Measurement, ArchivalData, Params}
use ndt_server.Ndt7.Receiver
use ndt_server.Ndt7.Receiver.{Arrival, download_receiver, upload_receiver}
use ndt_server.Ndt7.Upload

-- What meets a subtest from outside: the clock before the sender's loop and on its return, how the
-- preparations end, and the scripts of the receiver and of the sender.
pub record Outside (T : Type 0) : Type 0 where
  pub begin : ℕ
  pub finish : ℕ
  pub prepared : Option Error
  pub write_deadline : Option Error
  pub read_deadline : Option Error
  pub arrivals : List Arrival
  pub turns : List T

abbrev pub error_of : {S : Type 0} → Step S → Option Error
error_of (continue s) = none
error_of (return e s) = e

module _ (decode : Bytes → Option Measurement) where
  -- The receiver's part of `Do`.
  abbrev pub receive :
      Receiver.ReceiverKind → Option Error → List Arrival → ArchivalData → ArchivalData
  receive k e arrivals d = (left_by (Receiver.start decode k e arrivals d)).archival

  abbrev pub send_download : Params → Outside Download.Turn → ArchivalData → Step Download.State
  send_download p o d = Download.start p o.begin o.finish o.prepared o.write_deadline o.turns d

  abbrev pub send_upload : Outside Upload.Turn → ArchivalData → Step Upload.State
  send_upload o d = Upload.start o.begin o.finish o.write_deadline o.turns d

  -- `download.Do`: the error, and the archival data as it is when both have completed.
  unfoldable pub do_download :
      Params → Outside Download.Turn → ArchivalData → Option Error × ArchivalData
  do_download p o d =
      let r = send_download p o d in
      (error_of r, receive download_receiver o.read_deadline o.arrivals (left_by r).archival)

  -- `upload.Do`.
  unfoldable pub do_upload : Outside Upload.Turn → ArchivalData → Option Error × ArchivalData
  do_upload o d =
      let r = send_upload o d in
      (error_of r, receive upload_receiver o.read_deadline o.arrivals (left_by r).archival)
