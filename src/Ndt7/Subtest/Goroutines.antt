-- ===== src/Ndt7/Subtest/Goroutines.antt =====
-- `Do` of ndt7/download/download.go and of ndt7/upload/upload.go with its two goroutines: the sender, which
-- runs in `Do`, and the receiver of `StartDownloadReceiverAsync` or `StartUploadReceiverAsync`
-- (ndt7/receiver/receiver.go) work on the same archival data. A step is a round of one of the loops, or an
-- access to the contexts.
pub mod Senders
pub mod Alone
pub mod Refines
pub mod Late
pub mod AtMostOne
use ndt_server.Common.{◌≡◌, Bool, true, false, ◌||◌, List, [], ◌∷◌, ◌++◌, Option, Bytes, Error}
use ndt_server.Ndt7.Download
use ndt_server.Ndt7.Loop.{continue, return, left_by}
use ndt_server.Ndt7.Loop
use ndt_server.Ndt7.Model.{Measurement, ArchivalData, Params}
use ndt_server.Ndt7.Receiver
use ndt_server.Ndt7.Receiver.{ReceiverKind, Arrival, expired, pong}
use ndt_server.Ndt7.Subtest.{Outside}
use ndt_server.Ndt7.Upload

-- A sender: `Start` up to its loop and over a script of the loop's turns, a round of the loop with the deferred
-- record of the time, and where its state keeps the archival data.
pub record Sender (T S : Type 0) : Type 0 where
  pub idle : ArchivalData → S
  pub start : List T → ArchivalData → Loop.Step S
  pub round : T → S → Loop.Step S
  pub data_of : S → ArchivalData
  pub with_data : ArchivalData → S → S

abbrev pub download_sender : Params → Outside Download.Turn → Sender Download.Turn Download.State
download_sender p o = record {
  idle = Download.initial;
  start = Download.start p o.begin o.finish o.prepared o.write_deadline;
  round = λ t u. Download.end_at o.finish (Download.step p t u);
  data_of = λ u. u.archival;
  with_data = λ a u. record u { archival = a };
}

abbrev pub upload_sender : Outside Upload.Turn → Sender Upload.Turn Upload.State
upload_sender o = record {
  idle = Upload.initial;
  start = Upload.start o.begin o.finish o.write_deadline;
  round = λ t u. Upload.end_at o.finish (Upload.step t u);
  data_of = λ u. u.archival;
  with_data = λ a u. record u { archival = a };
}

-- In the receiver's loop: at its condition, or in its body, where it reads.
pub data Place : Type 0 where
  testing reading : Place

-- The receiver's goroutine: before `start`, in its loop, before `cancel2()`, and ended.
pub data Reading : Type 0 where
  unstarted : Reading
  looping : Place → Reading
  cancelling completed : Reading

-- `Do`: before the sender's loop, in it, at `<-recv.Done()` with the sender's error, and returned.
pub data At : Type 0 where
  preparing sending : At
  waiting returned : Option Error → At

-- The shared archival data; the local variables of the sender and of the receiver, whose copy of the data is not
-- read; whether the context that `Do` was given is done; and, of the past, what both loops have met.
pub record State (T S : Type 0) : Type 0 where
  pub archival : ArchivalData
  pub sender : S
  pub receiver : Receiver.State
  pub reading : Reading
  pub at : At
  pub context_done : Bool
  pub turns : List T
  pub arrivals : List Arrival

-- What the receiver sees: `data` is written by both.
abbrev pub receiver_view : {T S : Type 0} → State T S → Receiver.State
receiver_view s = record (s.receiver) { archival = s.archival }

abbrev pub at_after : {S : Type 0} → Loop.Step S → At
at_after (continue u) = sending
at_after (return e u) = waiting e

-- A pong that is a number leaves the read that met it waiting for the next message.
abbrev pub place_after : Arrival → Place
place_after (pong r) = reading
place_after _ = testing

abbrev pub reading_after : Place → Loop.Step Receiver.State → Reading
reading_after q (continue u) = looping q
reading_after q (return e u) = cancelling

-- `q` is where the receiver is then, if its loop goes on.
abbrev pub after_receiver :
    {T S : Type 0} → Place → Loop.Step Receiver.State → State T S → State T S
after_receiver q r s = record s {
  archival = (left_by r).archival;
  receiver = left_by r;
  reading = reading_after q r;
}

-- Whether a round finds the condition of the loop false.
abbrev pub is_expired : Arrival → Bool
is_expired expired = true
is_expired _ = false

abbrev pub is_completed : Reading → Bool
is_completed unstarted = false
is_completed (looping q) = false
is_completed cancelling = false
is_completed completed = true

-- `recv` is a child of the context that `Do` was given, as is the receiver's own context: it is done when
-- `cancel2` has been called, and also when that context is done.
unfoldable pub recv_done : {T S : Type 0} → State T S → Bool
recv_done s = s.context_done || is_completed s.reading

module _ {T S : Type 0} (x : Sender T S) where
  abbrev pub initial : ArchivalData → Bool → State T S
  initial d done = record {
    archival = d;
    sender = x.idle d;
    receiver = record { archival = d; receiver_errors = [] };
    reading = unstarted;
    at = preparing;
    context_done = done;
    turns = [];
    arrivals = [];
  }

  -- What the sender sees.
  abbrev pub sender_view : State T S → S
  sender_view s = x.with_data s.archival s.sender

  abbrev pub after_sender : Loop.Step S → State T S → State T S
  after_sender r s = record s {
    archival = x.data_of (left_by r);
    sender = left_by r;
    at = at_after r;
  }

-- `deadline` says how the receiver's `SetReadDeadline` ends.
module _ (decode : Bytes → Option Measurement) (k : ReceiverKind) (deadline : Option Error)
    {T S : Type 0} (x : Sender T S) where
  pub data Step (s : State T S) : State T S → Type 0 where
    sender_begins : s.at ≡ preparing → Step s (after_sender x (x.start [] s.archival) s)
    sender_goes_on :
        (t : T)
        → s.at ≡ sending
        → Step s
            (record (after_sender x (x.round t (sender_view x s)) s) { turns = s.turns ++ t ∷ [] })
    receiver_begins :
        s.reading ≡ unstarted
        → Step s (after_receiver testing (Receiver.start decode k deadline [] s.archival) s)
    -- The receiver's own context may be done before the one that `Do` was given.
    receiver_expires :
        s.reading ≡ looping testing
        → Step s
            (record (after_receiver testing (Receiver.step decode k expired (receiver_view s)) s) {
              arrivals = s.arrivals ++ expired ∷ [];
            })
    receiver_tests :
        s.reading ≡ looping testing
        → s.context_done ≡ false
        → Step s (record s { reading = looping reading })
    receiver_goes_on :
        (a : Arrival)
        → s.reading ≡ looping reading
        → is_expired a ≡ false
        → Step s
            (record (after_receiver
              (place_after a)
              (Receiver.step decode k a (receiver_view s))
              s) { arrivals = s.arrivals ++ a ∷ [] })
    cancels : s.reading ≡ cancelling → Step s (record s { reading = completed })
    context_ends : Step s (record s { context_done = true })
    returns :
        (e : Option Error)
        → s.at ≡ waiting e
        → recv_done s ≡ true
        → Step s (record s { at = returned e })

  pub data Reach (d : ArchivalData) : State T S → Type 0 where
    begin : (done : Bool) → Reach d (initial x d done)
    later : {s t : State T S} → Reach d s → Step s t → Reach d t
