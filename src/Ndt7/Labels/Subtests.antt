-- ===== src/Ndt7/Labels/Subtests.antt =====
-- The labels of the errors that the senders and the receivers of ndt7 count.
use ndt_server.Common.{
  ℕ, ◌≡◌, refl, true, List, [], ◌∷◌, ◌++◌, Option, none, some, String, Bytes, Error, ok, err, All,
  All-append, All-map, codes, equal, Bool-cases, inl, inr, leb, ltb, ◌^◌, ◌/◌, ◌+◌,
}
use ndt_server.Ndt5.Panics.{is_in}
use ndt_server.Ndt7.Download
use ndt_server.Ndt7.Download.{
  enough_acked, start_closing, after_ticks, after_json, after_scale, after_bulk, doubled, filled,
}
use ndt_server.Ndt7.Handler.{conn_label}
use ndt_server.Ndt7.Labels.Requests.{conn_label_known}
use ndt_server.Ndt7.Labels.{
  sender_update, receiver_update, label_names, sender_errors, receiver_errors, IsLabelled,
}
use ndt_server.Ndt7.Loop.{Step, left_by, run_inv, continue, return}
use ndt_server.Ndt7.Model.{Measurement, ArchivalData, Params}
use ndt_server.Ndt7.Receiver
use ndt_server.Ndt7.Receiver.{
  ReceiverKind, download_receiver, upload_receiver, Arrival, expired, unreadable, binary, text,
  pong, pong_in_text, on_pong,
}
use ndt_server.Ndt7.Spec.{subtest_download}

abbrev pub AreIn : List Bytes → List String → Type 0
AreIn ws ls = All (λ l. is_in (codes l) ws ≡ true) ls

-- One more error.
pub AreIn-snoc :
    (ws : List Bytes) (ls : List String) (l : String)
    → AreIn ws ls
    → is_in (codes l) ws ≡ true
    → AreIn ws (ls ++ l ∷ [])
AreIn-snoc ws ls l h k = All-append (λ l. is_in (codes l) ws ≡ true) ls (l ∷ []) h (k, tt)

abbrev IsSent : Download.State → Type 0
IsSent s = AreIn sender_errors s.sender_errors

module _ (p : Params) where
  start_closing-IsSent :
      (e : Option Error) (s : Download.State) → IsSent s → IsSent (start_closing e s)
  unfolding start_closing
  start_closing-IsSent none s h = h
  start_closing-IsSent (some e) s h = h

  after_ticks-IsSent :
      (t : Download.Measured) (e : Option Error) (s : Download.State)
      → IsSent s
      → IsSent (left_by (after_ticks p t e s))
  unfolding after_ticks equal
  after_ticks-IsSent t (some e) s h =
      AreIn-snoc sender_errors s.sender_errors "ping-send-ticks" h refl
  after_ticks-IsSent t none s h = elim (Bool-cases (enough_acked p t.measurement.tcp_info)) [
    | inl e ↦ rw e (
        AreIn-snoc sender_errors _ "measurer-closed-early" (start_closing-IsSent t.write_close _ h)
          refl)
    | inr e ↦ rw e h
  ]

  after_json-IsSent :
      (t : Download.Measured) (e : Option Error) (s : Download.State)
      → IsSent s
      → IsSent (left_by (after_json p t e s))
  unfolding after_json equal
  after_json-IsSent t (some e) s h = AreIn-snoc sender_errors s.sender_errors "write-json" h refl
  after_json-IsSent t none s h = after_ticks-IsSent t t.send_ticks _ h

  after_scale-IsSent :
      (e : Option Error) (s : Download.State) → IsSent s → IsSent (left_by (after_scale e s))
  unfolding after_scale equal
  after_scale-IsSent (some e) s h =
      AreIn-snoc sender_errors s.sender_errors "make-prepared-message" h refl
  after_scale-IsSent none s h = h

  after_bulk-IsSent :
      (e f : Option Error) (s : Download.State) → IsSent s → IsSent (left_by (after_bulk e f s))
  unfolding after_bulk equal
  after_bulk-IsSent (some e) f s h =
      AreIn-snoc sender_errors s.sender_errors "write-prepared-message" h refl
  after_bulk-IsSent none f s h = elim (Bool-cases (leb (2 ^ 20) s.bulk_message_size)) [
    | inl full ↦ rw full h
    | inr more ↦
        rw more
          (elim (Bool-cases (ltb ((s.total_sent + s.bulk_message_size) / 16) s.bulk_message_size)) [
            | inl big ↦ rw big h
            | inr small ↦ rw small (after_scale-IsSent f (doubled (filled s)) h)
          ])
  ]

  step-IsSent :
      (t : Download.Turn) (s : Download.State) → IsSent s → IsSent (left_by (Download.step p t s))
  unfolding Download.step equal
  step-IsSent (Download.closed w) s h =
      AreIn-snoc sender_errors _ "measurer-closed" (start_closing-IsSent w s h) refl
  step-IsSent (Download.measured t) s h = after_json-IsSent t t.write_json s h
  step-IsSent (Download.idle e f) s h = after_bulk-IsSent e f s h

  end_at-IsSent :
      (f : ℕ) (r : Step Download.State)
      → IsSent (left_by r)
      → IsSent (left_by (Download.end_at f r))
  end_at-IsSent f (continue s) h = h
  end_at-IsSent f (return e s) h = h

  start-IsSent :
      (b f : ℕ) (prepared deadline : Option Error) (ts : List Download.Turn) (d : ArchivalData)
      → IsSent (left_by (Download.start p b f prepared deadline ts d))
  unfolding Download.start equal
  start-IsSent b f (some e) deadline ts d = (refl, tt)
  start-IsSent b f none (some e) ts d = (refl, tt)
  start-IsSent b f none none ts d =
      let s0 = Download.begun b (Download.initial d) in
      end_at-IsSent f (Download.loop p ts s0)
        (run_inv (Download.step p) IsSent step-IsSent ts s0 tt)

abbrev IsReceived : Receiver.State → Type 0
IsReceived s = AreIn receiver_errors s.receiver_errors

module _ (decode : Bytes → Option Measurement) (k : ReceiverKind) where
  decoded-IsReceived :
      (o : Option Measurement) (s : Receiver.State)
      → IsReceived s
      → IsReceived (left_by (Receiver.decoded decode o s))
  unfolding equal
  decoded-IsReceived none s h =
      AreIn-snoc receiver_errors s.receiver_errors "unmarshal-client-message" h refl
  decoded-IsReceived (some m) s h = h

  binary-IsReceived :
      (k : ReceiverKind) (s : Receiver.State)
      → IsReceived s
      → IsReceived (left_by (Receiver.on_binary decode k s))
  unfolding equal
  binary-IsReceived download_receiver s h =
      AreIn-snoc receiver_errors s.receiver_errors "wrong-message-type" h refl
  binary-IsReceived upload_receiver s h = h

  -- The pong, and the read that met it.
  pong-IsReceived :
      (l : String) (s : Receiver.State)
      → IsReceived s
      → is_in (codes l) receiver_errors ≡ true
      → AreIn receiver_errors ((s.receiver_errors ++ "ping-parse-ticks" ∷ []) ++ l ∷ [])
  unfolding equal
  pong-IsReceived l s h e =
      AreIn-snoc receiver_errors _ l
        (AreIn-snoc receiver_errors s.receiver_errors "ping-parse-ticks" h refl) e

  step-IsReceived :
      (a : Arrival) (s : Receiver.State)
      → IsReceived s
      → IsReceived (left_by (Receiver.step decode k a s))
  unfolding Receiver.step on_pong equal
  step-IsReceived expired s h =
      AreIn-snoc receiver_errors s.receiver_errors "receiver-context-expired" h refl
  step-IsReceived (unreadable e) s h =
      AreIn-snoc receiver_errors s.receiver_errors "read-message-type" h refl
  step-IsReceived binary s h = binary-IsReceived k s h
  step-IsReceived (text (err e)) s h =
      AreIn-snoc receiver_errors s.receiver_errors "read-message" h refl
  step-IsReceived (text (ok b)) s h = decoded-IsReceived (decode b) s h
  step-IsReceived (pong (ok rtt)) s h = h
  step-IsReceived (pong (err e)) s h = pong-IsReceived "read-message-type" s h refl
  step-IsReceived (pong_in_text e) s h = pong-IsReceived "read-message" s h refl

  pub start-IsReceived :
      (e : Option Error) (arrivals : List Arrival) (d : ArchivalData)
      → IsReceived (left_by (Receiver.start decode k e arrivals d))
  unfolding Receiver.start equal
  start-IsReceived (some e) arrivals d = (refl, tt)
  start-IsReceived none arrivals d =
      run_inv (Receiver.step decode k) IsReceived step-IsReceived arrivals _ tt

-- Whatever ends its loops, a download on a connection with any local address: every error that its sender or its
-- receiver counts has the labels that its metric declares, each with one of finitely many values.
pub errors-AreLabelled :
    (local : Bytes) (decode : Bytes → Option Measurement) (p : Params) (b f : ℕ)
    (prepared write_deadline read_deadline : Option Error) (ts : List Download.Turn)
    (arrivals : List Arrival) (d : ArchivalData)
    → let sent = left_by (Download.start p b f prepared write_deadline ts d) in
      let got = left_by (Receiver.start decode download_receiver read_deadline arrivals d) in
      All (λ l. IsLabelled (sender_update (conn_label local) subtest_download l)) sent.sender_errors
      × All
          (λ l. IsLabelled (receiver_update (conn_label local) download_receiver l))
          got.receiver_errors
unfolding sender_update receiver_update label_names equal
errors-AreLabelled local decode p b f prepared write_deadline read_deadline ts arrivals d = (
  All-map (λ l. is_in (codes l) sender_errors ≡ true)
      (λ l. IsLabelled (sender_update (conn_label local) subtest_download l))
      (λ l h. (conn_label_known local, (refl, (h, tt)))) _
      (start-IsSent p b f prepared write_deadline ts d),
  All-map (λ l. is_in (codes l) receiver_errors ≡ true)
      (λ l. IsLabelled (receiver_update (conn_label local) download_receiver l))
      (λ l h. (conn_label_known local, (refl, (h, tt)))) _
      (start-IsReceived decode download_receiver read_deadline arrivals d),
)
