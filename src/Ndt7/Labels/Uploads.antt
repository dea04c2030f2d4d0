-- ===== src/Ndt7/Labels/Uploads.antt =====
-- The labels of the errors that the sender and the receiver of an upload count.
use ndt_server.Common.{
  ℕ, List, Option, none, some, Bytes, Error, refl, All, All-map, codes, equal, ◌≡◌, true,
}
use ndt_server.Ndt5.Panics.{is_in}
use ndt_server.Ndt7.Handler.{conn_label}
use ndt_server.Ndt7.Labels.Requests.{conn_label_known}
use ndt_server.Ndt7.Labels.Subtests.{AreIn, AreIn-snoc, start-IsReceived}
use ndt_server.Ndt7.Labels.{
  sender_update, receiver_update, label_names, sender_errors, receiver_errors, IsLabelled,
}
use ndt_server.Ndt7.Loop.{Step, left_by, run, run_inv, continue, return}
use ndt_server.Ndt7.Model.{Measurement, ArchivalData}
use ndt_server.Ndt7.Receiver
use ndt_server.Ndt7.Receiver.{Arrival, upload_receiver}
use ndt_server.Ndt7.Spec.{subtest_upload}
use ndt_server.Ndt7.Upload
use ndt_server.Ndt7.Upload.{start_closing, after_ticks, after_json}

abbrev IsSent : Upload.State → Type 0
IsSent s = AreIn sender_errors s.sender_errors

start_closing-IsSent : (e : Option Error) (s : Upload.State) → IsSent s → IsSent (start_closing e s)
unfolding start_closing
start_closing-IsSent none s h = h
start_closing-IsSent (some e) s h = h

step-IsSent : (t : Upload.Turn) (s : Upload.State) → IsSent s → IsSent (left_by (Upload.step t s))
unfolding Upload.step after_json after_ticks equal
step-IsSent (Upload.closed w) s h =
    AreIn-snoc sender_errors _ "measurer-closed" (start_closing-IsSent w s h) refl
step-IsSent (Upload.measured m (some e) ticks) s h =
    AreIn-snoc sender_errors s.sender_errors "write-json" h refl
step-IsSent (Upload.measured m none (some e)) s h =
    AreIn-snoc sender_errors s.sender_errors "ping-send-ticks" h refl
step-IsSent (Upload.measured m none none) s h = h

end_at-IsSent :
    (f : ℕ) (r : Step Upload.State) → IsSent (left_by r) → IsSent (left_by (Upload.end_at f r))
end_at-IsSent f (continue s) h = h
end_at-IsSent f (return e s) h = h

start-IsSent :
    (b f : ℕ) (deadline : Option Error) (ts : List Upload.Turn) (d : ArchivalData)
    → IsSent (left_by (Upload.start b f deadline ts d))
unfolding Upload.start equal
start-IsSent b f (some e) ts d = (refl, tt)
start-IsSent b f none ts d =
    let s0 = Upload.begun b (Upload.initial d) in
    end_at-IsSent f (run Upload.step ts s0) (run_inv Upload.step IsSent step-IsSent ts s0 tt)

-- Whatever ends its loops, an upload on a connection with any local address: every error that its sender or its
-- receiver counts has the labels that its metric declares, each with one of finitely many values.
pub upload_errors-AreLabelled :
    (local : Bytes) (decode : Bytes → Option Measurement) (b f : ℕ)
    (write_deadline read_deadline : Option Error) (ts : List Upload.Turn) (arrivals : List Arrival)
    (d : ArchivalData)
    → let sent = left_by (Upload.start b f write_deadline ts d) in
      let got = left_by (Receiver.start decode upload_receiver read_deadline arrivals d) in
      All (λ l. IsLabelled (sender_update (conn_label local) subtest_upload l)) sent.sender_errors
      × All
          (λ l. IsLabelled (receiver_update (conn_label local) upload_receiver l))
          got.receiver_errors
unfolding sender_update receiver_update label_names equal
upload_errors-AreLabelled local decode b f write_deadline read_deadline ts arrivals d = (
  All-map (λ l. is_in (codes l) sender_errors ≡ true)
      (λ l. IsLabelled (sender_update (conn_label local) subtest_upload l))
      (λ l h. (conn_label_known local, (refl, (h, tt)))) _ (start-IsSent b f write_deadline ts d),
  All-map (λ l. is_in (codes l) receiver_errors ≡ true)
      (λ l. IsLabelled (receiver_update (conn_label local) upload_receiver l))
      (λ l h. (conn_label_known local, (refl, (h, tt)))) _
      (start-IsReceived decode upload_receiver read_deadline arrivals d),
)
