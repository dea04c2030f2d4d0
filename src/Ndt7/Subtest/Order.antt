-- ===== src/Ndt7/Subtest/Order.antt =====
-- The sender and the receiver of a subtest do not disturb one another.
use ndt_server.Common.{◌≡◌, refl, ap, ◌∙◌, List, [], Option, none, some, Bytes, Error, ok, err}
use ndt_server.Ndt7.Download
use ndt_server.Ndt7.Download.{
  Measured, closed, measured, idle, after_ticks, after_json, after_scale, after_bulk, start_closing,
  enough_acked,
}
use ndt_server.Ndt7.Download.Record.{start-Extends}
use ndt_server.Ndt7.Download.Separate.{with_client, in_state, start-in_state}
use ndt_server.Ndt7.Loop.{Step, continue, return, left_by, map_step, left_by-map_step, run-map_step}
use ndt_server.Ndt7.Model.{Measurement, ArchivalData, Params}
use ndt_server.Ndt7.Receiver
use ndt_server.Ndt7.Receiver.{
  ReceiverKind, download_receiver, upload_receiver, Arrival, expired, unreadable, binary, text,
  pong, pong_in_text, on_pong,
}
use ndt_server.Ndt7.Subtest.{Outside, error_of, receive, send_download, do_download}

-- The data `a` with the client's measurements of `d`.
abbrev pub with_client_of : ArchivalData → ArchivalData → ArchivalData
with_client_of d a = record a { client_measurements = d.client_measurements }

-- The receiver works on the client's measurements whatever stands beside them.
abbrev pub beside : ArchivalData → Receiver.State → Receiver.State
beside a s = record s { archival = with_client_of s.archival a }

module _ (decode : Bytes → Option Measurement) where
  decoded-beside :
      (o : Option Measurement) (a : ArchivalData) (s : Receiver.State)
      → Receiver.decoded decode o (beside a s) ≡ map_step (beside a) (Receiver.decoded decode o s)
  decoded-beside none a s = refl
  decoded-beside (some m) a s = refl

  pub receiver_step-beside :
      (k : ReceiverKind) (a : ArchivalData) (t : Arrival) (s : Receiver.State)
      → Receiver.step decode k t (beside a s) ≡ map_step (beside a) (Receiver.step decode k t s)
  unfolding Receiver.step on_pong
  receiver_step-beside k a expired s = refl
  receiver_step-beside k a (unreadable e) s = refl
  receiver_step-beside download_receiver a binary s = refl
  receiver_step-beside upload_receiver a binary s = refl
  receiver_step-beside k a (pong (ok rtt)) s = refl
  receiver_step-beside k a (pong (err e)) s = refl
  receiver_step-beside k a (pong_in_text e) s = refl
  receiver_step-beside k a (text (err e)) s = refl
  receiver_step-beside k a (text (ok b)) s = decoded-beside (decode b) a s

  pub receiver_start-beside :
      (k : ReceiverKind) (e : Option Error) (arrivals : List Arrival) (d a : ArchivalData)
      → Receiver.start decode k e arrivals (with_client_of d a)
        ≡ map_step (beside a) (Receiver.start decode k e arrivals d)
  unfolding Receiver.start
  receiver_start-beside k (some e) arrivals d a = refl
  receiver_start-beside k none arrivals d a =
      run-map_step (Receiver.step decode k) (beside a) (receiver_step-beside k a) arrivals
        (record { archival = d; receiver_errors = [] })

  pub receive-beside :
      (k : ReceiverKind) (e : Option Error) (arrivals : List Arrival) (d a : ArchivalData)
      → receive decode k e arrivals (with_client_of d a)
        ≡ with_client_of (receive decode k e arrivals d) a
  receive-beside k e arrivals d a =
      ap (λ (r : Step Receiver.State). (left_by r).archival)
        (receiver_start-beside k e arrivals d a)
      ∙ ap (λ (s : Receiver.State). s.archival)
          (left_by-map_step (beside a) (Receiver.start decode k e arrivals d))

  -- The receiver leaves everything but the client's measurements as it is.
  receive_only :
      (k : ReceiverKind) (e : Option Error) (arrivals : List Arrival) (d : ArchivalData)
      → receive decode k e arrivals d ≡ with_client_of (receive decode k e arrivals d) d
  receive_only k e arrivals d = receive-beside k e arrivals d d

  error_of-map_step : {S : Type 0} (f : S → S) (r : Step S) → error_of (map_step f r) ≡ error_of r
  error_of-map_step f (continue s) = refl
  error_of-map_step f (return e s) = refl

  -- What the sender leaves has the client's measurements that it was given.
  client_kept :
      (p : Params) (o : Outside Download.Turn) (d : ArchivalData)
      → let a = (left_by (send_download decode p o d)).archival in a ≡ with_client_of d a
  client_kept p o d =
      let a = (left_by (send_download decode p o d)).archival in
      let e = start-Extends p o.begin o.finish o.prepared o.write_deadline o.turns d in
      λ i. record a { client_measurements = e.client i }

  -- Whether the receiver of a download has completed before the sender starts or begins when the sender
  -- has returned: the error and the archival data are the same.
  pub do_download_order :
      (p : Params) (o : Outside Download.Turn) (d : ArchivalData)
      → let d' = receive decode download_receiver o.read_deadline o.arrivals d in
        let r = send_download decode p o d' in
        do_download decode p o d ≡ (error_of r, (left_by r).archival)
  unfolding do_download
  do_download_order p o d =
      let got = receive decode download_receiver o.read_deadline o.arrivals d in
      let c = got.client_measurements in
      let r = send_download decode p o d in
      let other : send_download decode p o got ≡ map_step (in_state c p) r =
        ap (send_download decode p o) (receive_only download_receiver o.read_deadline o.arrivals d)
        ∙ start-in_state c p o.begin o.finish o.prepared o.write_deadline o.turns d in
      let after_send : receive decode download_receiver o.read_deadline o.arrivals
            (left_by r).archival
          ≡ with_client c p (left_by r).archival =
        ap (receive decode download_receiver o.read_deadline o.arrivals) (client_kept p o d)
        ∙ receive-beside download_receiver o.read_deadline o.arrivals d (left_by r).archival in
      rw (other, error_of-map_step (in_state c p) r, left_by-map_step (in_state c p) r, after_send)
