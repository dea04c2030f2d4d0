-- ===== src/Ndt7/Tests/SubtestTests.antt =====
-- Runs of the goroutines of a download and of an upload.
use ndt_server.Common.{
  All, List, length, ◌≤◌, codes, ◌≡◌, refl, true, false, [], ◌∷◌, ◌++◌, none, ok, pos,
}
use ndt_server.Ndt7.Download
use ndt_server.Ndt7.Handler.{conn_label}
use ndt_server.Ndt7.Labels.Subtests.{errors-AreLabelled}
use ndt_server.Ndt7.Labels.{sender_update, receiver_update, IsLabelled}
use ndt_server.Ndt7.Spec.{subtest_download}
use ndt_server.Ndt7.Loop.{left_by, run}
use ndt_server.Ndt7.Model.{Measurement, ArchivalData, Params}
use ndt_server.Ndt7.Receiver
use ndt_server.Ndt7.Receiver.{download_receiver, upload_receiver, binary, text, expired}
use ndt_server.Ndt7.Subtest.Goroutines.AtMostOne.{at_most_one}
use ndt_server.Ndt7.Subtest.Goroutines.Late.{Later, now, then_later, Reach-final, late_measurement}
use ndt_server.Ndt7.Subtest.Goroutines.Refines.{Reach-do_download, Reach-do_upload}
use ndt_server.Ndt7.Subtest.Goroutines.{
  looping, testing, reading, completed, waiting, returned, Sender, State, download_sender,
  upload_sender, recv_done, sender_begins, sender_goes_on, receiver_begins, receiver_expires,
  receiver_tests, receiver_goes_on, cancels, context_ends, returns, Reach, begin, later,
}
use ndt_server.Ndt7.Subtest.{Outside, do_download, do_upload}
use ndt_server.Ndt7.Upload
use ndt_server.Ndt7.Tests.{fresh, sample, one_byte, download_outside}

abbrev whole : Params
whole = record { is_early_exit = false; max_bytes = pos 0 }

-- The sender has ended with the measurer, and `Do` waits for the receiver.
abbrev sent : ArchivalData
sent = record fresh { start_time = 1; end_time = 2 }

abbrev waits : State Download.Turn Download.State
waits = record {
  archival = sent;
  sender = record (Download.initial sent) {
    wire = Download.closing ∷ [];
    sender_errors = "measurer-closed" ∷ [];
  };
  receiver = record { archival = record fresh { start_time = 1 }; receiver_errors = [] };
  reading = looping reading;
  at = waiting none;
  context_done = false;
  turns = Download.closed none ∷ [];
  arrivals = [];
}

abbrev the_sender : Sender Download.Turn Download.State
the_sender = download_sender whole download_outside

waits-Reach : Reach one_byte download_receiver none the_sender fresh waits
unfolding Download.start Download.step Download.start_closing Receiver.start run
waits-Reach =
    later
      (later (later (later (begin false) (sender_begins refl)) (receiver_begins refl))
        (receiver_tests refl refl))
      (sender_goes_on (Download.closed none) refl)

late_measurement_example :
    (t : State Download.Turn Download.State) × (u : State Download.Turn Download.State) × Reach
      one_byte download_receiver none the_sender fresh t
    × (t.at ≡ returned none)
    × (t.archival ≡ sent)
    × Later one_byte download_receiver none the_sender t u
    × (u.archival.client_measurements ≡ [] ++ sample 7 ∷ [])
late_measurement_example =
    late_measurement one_byte download_receiver none the_sender fresh waits none (7 ∷ []) (sample 7)
      waits-Reach refl refl refl

-- The receiver reads a measurement before its context ends, and `Do` returns after it.
abbrev measured : ArchivalData
measured = record sent { client_measurements = sample 7 ∷ [] }

abbrev over : State Download.Turn Download.State
over = record waits {
  archival = measured;
  receiver = record { archival = measured; receiver_errors = "receiver-context-expired" ∷ [] };
  reading = completed;
  at = returned none;
  arrivals = text (ok (7 ∷ [])) ∷ expired ∷ [];
}

over-Reach : Reach one_byte download_receiver none the_sender fresh over
unfolding Receiver.step recv_done
over-Reach =
    later
      (later
        (later (later waits-Reach (receiver_goes_on (text (ok (7 ∷ []))) refl refl))
          (receiver_expires refl))
        (cancels refl))
      (returns none refl refl)

Reach-do_download_example :
    do_download one_byte whole
      (record download_outside {
        arrivals = text (ok (7 ∷ [])) ∷ expired ∷ [];
        turns = Download.closed none ∷ [];
      })
      fresh
    ≡ (none, measured)
Reach-do_download_example =
    Reach-do_download one_byte whole download_outside fresh over none over-Reach refl refl

-- An upload, in which the sender has sent a measurement before the receiver begins.
abbrev upload_outside : Outside Upload.Turn
upload_outside = record {
  begin = 1;
  finish = 2;
  prepared = none;
  write_deadline = none;
  read_deadline = none;
  arrivals = binary ∷ expired ∷ [];
  turns = Upload.measured (sample 5) none none ∷ Upload.closed none ∷ [];
}

abbrev uploaded : ArchivalData
uploaded = record sent { server_measurements = sample 5 ∷ [] }

abbrev upload_over : State Upload.Turn Upload.State
upload_over = record {
  archival = uploaded;
  sender = record {
    archival = uploaded;
    wire = Upload.json (sample 5) ∷ Upload.ping ∷ Upload.closing ∷ [];
    sender_errors = "measurer-closed" ∷ [];
  };
  receiver = record { archival = uploaded; receiver_errors = "receiver-context-expired" ∷ [] };
  reading = completed;
  at = returned none;
  context_done = false;
  turns = upload_outside.turns;
  arrivals = upload_outside.arrivals;
}

upload_over-Reach :
    Reach one_byte upload_receiver none (upload_sender upload_outside) fresh upload_over
unfolding Upload.start Upload.step Receiver.start Receiver.step run recv_done
upload_over-Reach =
    let begun = later (begin false) (sender_begins refl) in
    let sent_one = later begun (sender_goes_on (Upload.measured (sample 5) none none) refl) in
    let started = later (later sent_one (receiver_begins refl)) (receiver_tests refl refl) in
    let read_one = later started (receiver_goes_on binary refl refl) in
    let sent_all = later read_one (sender_goes_on (Upload.closed none) refl) in
    let ended = later (later sent_all (receiver_expires refl)) (cancels refl) in
    later ended (returns none refl refl)

Reach-do_upload_example : do_upload one_byte upload_outside fresh ≡ (none, uploaded)
Reach-do_upload_example =
    Reach-do_upload one_byte upload_outside fresh upload_over none upload_over-Reach refl refl

-- The end of the context lets `Do` return, and the measurement comes after it.
abbrev left_early : State Download.Turn Download.State
left_early = record waits { context_done = true; at = returned none }

abbrev left_later : State Download.Turn Download.State
left_later = record left_early {
  archival = measured;
  receiver = record { archival = measured; receiver_errors = [] };
  reading = looping testing;
  arrivals = text (ok (7 ∷ [])) ∷ [];
}

left_early-Later : Later one_byte download_receiver none the_sender left_early left_later
unfolding Receiver.step
left_early-Later = then_later now (receiver_goes_on (text (ok (7 ∷ []))) refl refl)

at_most_one_example :
    (ms : List Measurement) × (length ms ≤ 1)
    × (measured ≡ record sent { client_measurements = [] ++ ms })
unfolding recv_done
at_most_one_example =
    at_most_one one_byte download_receiver none the_sender fresh left_early left_later none
      (later (later waits-Reach context_ends) (returns none refl refl)) refl left_early-Later

abbrev cancelled : State Download.Turn Download.State
cancelled = record over { context_done = true }

Reach-final_example : (completed ≡ completed) × (cancelled.archival ≡ over.archival)
Reach-final_example =
    Reach-final one_byte download_receiver none the_sender fresh over cancelled none over-Reach refl
      refl (then_later now context_ends)

-- The errors of a download that ends with the measurer and with the time.
errors-AreLabelled_example :
    let sent = left_by (Download.start whole 1 2 none none (Download.closed none ∷ []) fresh) in
    let got = left_by (Receiver.start one_byte download_receiver none (expired ∷ []) fresh) in
    All
      (λ l. IsLabelled (sender_update (conn_label (codes "10.0.0.1:443")) subtest_download l))
      sent.sender_errors
    × All
        (λ l. IsLabelled (receiver_update (conn_label (codes "10.0.0.1:443")) download_receiver l))
        got.receiver_errors
errors-AreLabelled_example =
    errors-AreLabelled (codes "10.0.0.1:443") one_byte whole 1 2 none none none
      (Download.closed none ∷ []) (expired ∷ []) fresh
