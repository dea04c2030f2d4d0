-- ===== src/Ndt7/Receiver/Messages.antt =====
-- What the receiver does with text and with binary messages.
use ndt_server.Common.{
  ◌≡◌, refl, List, [], ◌∷◌, ◌++◌, Option, some, none, Bytes, ok, err, Error, append_assoc,
  append-nil, ap, ◌∙◌, fun_ext,
}
use ndt_server.Ndt7.Loop.{continue, return, run, and_then, run-append}
use ndt_server.Ndt7.Model.{Measurement, ArchivalData}
use ndt_server.Ndt7.Receiver.{
  ReceiverKind, download_receiver, upload_receiver, Arrival, expired, unreadable, binary, text,
  pong, pong_in_text, on_pong, State, step, start, save,
}

abbrev pub drop_binary : List Arrival → List Arrival
drop_binary [] = []
drop_binary (binary ∷ arrivals) = drop_binary arrivals
drop_binary (expired ∷ arrivals) = expired ∷ drop_binary arrivals
drop_binary (unreadable e ∷ arrivals) = unreadable e ∷ drop_binary arrivals
drop_binary (text r ∷ arrivals) = text r ∷ drop_binary arrivals
drop_binary (pong r ∷ arrivals) = pong r ∷ drop_binary arrivals
drop_binary (pong_in_text e ∷ arrivals) = pong_in_text e ∷ drop_binary arrivals

module _ (decode : Bytes → Option Measurement) where
  run-drop_binary :
      (arrivals : List Arrival) (s : State)
      → run (step decode upload_receiver) arrivals s
        ≡ run (step decode upload_receiver) (drop_binary arrivals) s
  unfolding run step on_pong
  run-drop_binary [] s = refl
  run-drop_binary (binary ∷ arrivals) s = run-drop_binary arrivals s
  run-drop_binary (expired ∷ arrivals) s = refl
  run-drop_binary (unreadable e ∷ arrivals) s = refl
  run-drop_binary (pong (ok rtt) ∷ arrivals) s = run-drop_binary arrivals s
  run-drop_binary (pong (err e) ∷ arrivals) s = refl
  run-drop_binary (pong_in_text e ∷ arrivals) s = refl
  run-drop_binary (text r ∷ arrivals) s =
      ap (and_then (step decode upload_receiver (text r) s)) (fun_ext (run-drop_binary arrivals))

  -- The binary messages of an upload, wherever they come, change nothing: the receiver records and
  -- counts, and stops or goes on, as if they were not there.
  pub start_upload_binary :
      (e : Option Error) (arrivals : List Arrival) (d : ArchivalData)
      → start decode upload_receiver e arrivals d
        ≡ start decode upload_receiver e (drop_binary arrivals) d
  unfolding start
  start_upload_binary (some e) arrivals d = refl
  start_upload_binary none arrivals d = run-drop_binary arrivals _

  -- The texts decode to these measurements, in order.
  abbrev pub Decodes : List Bytes → List Measurement → Type 0
  Decodes [] [] = Unit
  Decodes (b ∷ bs) (m ∷ ms) = (decode b ≡ some m) × Decodes bs ms
  Decodes _ _ = ⊥

  abbrev pub texts : List Bytes → List Arrival
  texts [] = []
  texts (b ∷ bs) = text (ok b) ∷ texts bs

  abbrev pub received : ArchivalData → List Measurement → ArchivalData
  received d ms = record d { client_measurements = d.client_measurements ++ ms }

  run-texts :
      (k : ReceiverKind) (bs : List Bytes) (ms : List Measurement) (s : State)
      → Decodes bs ms
      → run (step decode k) (texts bs) s ≡ continue (record s { archival = received s.archival ms })
  unfolding run step
  run-texts k [] [] s h = rw (append-nil s.archival.client_measurements)
  run-texts k [] (m ∷ ms) s h = absurd h
  run-texts k (b ∷ bs) [] s h = absurd h
  run-texts k (b ∷ bs) (m ∷ ms) s h = rw h.0 (
      run-texts k bs ms (save m s) h.1
      ∙ rw (append_assoc s.archival.client_measurements (m ∷ []) ms))

  -- A download ends at its first binary message: the measurements before it are recorded, the
  -- wrong type is counted, and nothing after it is read.
  pub start_download_binary :
      (bs : List Bytes) (ms : List Measurement) (arrivals : List Arrival) (d : ArchivalData)
      → Decodes bs ms
      → start decode download_receiver none (texts bs ++ binary ∷ arrivals) d
        ≡ return none
            (record { archival = received d ms; receiver_errors = "wrong-message-type" ∷ [] })
  unfolding start run step
  start_download_binary bs ms arrivals d h = rw (
    run-append (step decode download_receiver) (texts bs) (binary ∷ arrivals),
    run-texts download_receiver bs ms _ h,
  )

  -- In both subtests the receiver ends at the first text that does not decode: the measurements before
  -- it are recorded, the failure is counted, and nothing after it is read.
  pub start_bad_text :
      (k : ReceiverKind) (bs : List Bytes) (ms : List Measurement) (b : Bytes)
      (arrivals : List Arrival) (d : ArchivalData)
      → Decodes bs ms
      → decode b ≡ none
      → start decode k none (texts bs ++ text (ok b) ∷ arrivals) d
        ≡ return none
            (record { archival = received d ms; receiver_errors = "unmarshal-client-message" ∷ [] })
  unfolding start run step
  start_bad_text k bs ms b arrivals d h e =
      rw (run-append (step decode k) (texts bs) (text (ok b) ∷ arrivals), run-texts k bs ms _ h)
        (rw e)

  -- In both subtests the receiver ends at the first pong whose data is no time: the measurements before it are
  -- recorded, both the pong and the read that met it are counted, and nothing after it is read.
  pub start_bad_pong :
      (k : ReceiverKind) (bs : List Bytes) (ms : List Measurement) (e : Error)
      (arrivals : List Arrival) (d : ArchivalData)
      → Decodes bs ms
      → start decode k none (texts bs ++ pong (err e) ∷ arrivals) d
        ≡ return none (record {
          archival = received d ms;
          receiver_errors = "ping-parse-ticks" ∷ "read-message-type" ∷ [];
        })
  unfolding start run step on_pong
  start_bad_pong k bs ms e arrivals d h =
      rw (run-append (step decode k) (texts bs) (pong (err e) ∷ arrivals), run-texts k bs ms _ h)
