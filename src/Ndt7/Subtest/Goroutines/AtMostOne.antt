-- ===== src/Ndt7/Subtest/Goroutines/AtMostOne.antt =====
-- What the receiver may still write after `Do` of a subtest has returned.
use ndt_server.Common.{
  ◌≡◌, refl, ap, ◌∙◌, true, Bool-cases, inl, inr, List, [], ◌∷◌, ◌++◌, append-nil, append_assoc,
  length, length-append, ℕ, ◌+◌, ◌≤◌, Option, some, none, Bytes, Error, ok, err, arith,
}
use ndt_server.Ndt7.Loop.{left_by}
use ndt_server.Ndt7.Loop
use ndt_server.Ndt7.Model.{Measurement, ArchivalData}
use ndt_server.Ndt7.Receiver
use ndt_server.Ndt7.Receiver.{
  ReceiverKind, download_receiver, upload_receiver, Arrival, expired, unreadable, binary, text,
  pong, pong_in_text, on_pong,
}
use ndt_server.Ndt7.Subtest.Goroutines.Late.{Later, now, then_later, Reach-final}
use ndt_server.Ndt7.Subtest.Goroutines.{
  testing, reading, place_after, Reading, unstarted, looping, cancelling, completed, reading_after,
  returned, Sender, State, receiver_view, Step, sender_begins, sender_goes_on, receiver_begins,
  receiver_expires, receiver_tests, receiver_goes_on, cancels, context_ends, returns, Reach,
}

-- How many measurements the receiver may add once the context is done.
abbrev left : Reading → ℕ
left unstarted = 0
left (looping testing) = 0
left (looping reading) = 1
left cancelling = 0
left completed = 0

left_one : (q : Reading) → left q ≤ 1
left_one unstarted = omega arith
left_one (looping testing) = omega arith
left_one (looping reading) = omega arith
left_one cancelling = omega arith
left_one completed = omega arith

-- The data with these measurements of the client added.
abbrev with_more : ArchivalData → List Measurement → ArchivalData
with_more d ms = record d { client_measurements = d.client_measurements ++ ms }

-- At most `n` measurements are added to `a`, counted with those that may still be.
abbrev Adds : ℕ → ArchivalData → ArchivalData → ℕ → Type 0
Adds n a b m = (ms : List Measurement) × (b ≡ with_more a ms) × (length ms + m ≤ n)

Adds-none : (n m : ℕ) (a : ArchivalData) → m ≤ n → Adds n a a m
Adds-none n m a h = ([], rw (append-nil a.client_measurements) refl, omega arith)

Adds-trans : (n m l : ℕ) (a b c : ArchivalData) → Adds n a b m → Adds m b c l → Adds n a c l
Adds-trans n m l a b c (ms, e, h) (ns, f, g) = (
  ms ++ ns,
  f
      ∙ ap (λ b. with_more b ns) e
      ∙ ap (λ cs. record a { client_measurements = cs }) (append_assoc a.client_measurements ms ns),
  grind (arith, length-append ms ns),
)

module _ (decode : Bytes → Option Measurement) (k : ReceiverKind) where
  binary-Adds :
      (k : ReceiverKind) (u : Receiver.State)
      → let r = Receiver.on_binary decode k u in
        Adds 1 u.archival (left_by r).archival (left (reading_after testing r))
  binary-Adds download_receiver u = Adds-none 1 0 u.archival (omega arith)
  binary-Adds upload_receiver u = Adds-none 1 0 u.archival (omega arith)

  decoded-Adds :
      (o : Option Measurement) (u : Receiver.State)
      → let r = Receiver.decoded decode o u in
        Adds 1 u.archival (left_by r).archival (left (reading_after testing r))
  decoded-Adds none u = Adds-none 1 0 u.archival (omega arith)
  decoded-Adds (some m) u = (m ∷ [], refl, omega arith)

  step-Adds :
      (a : Arrival) (u : Receiver.State)
      → let r = Receiver.step decode k a u in
        Adds 1 u.archival (left_by r).archival (left (reading_after (place_after a) r))
  unfolding Receiver.step on_pong
  step-Adds binary u = binary-Adds k u
  step-Adds (text (ok b)) u = decoded-Adds (decode b) u
  step-Adds (text (err e)) u = Adds-none 1 0 u.archival (omega arith)
  step-Adds expired u = Adds-none 1 0 u.archival (omega arith)
  step-Adds (unreadable e) u = Adds-none 1 0 u.archival (omega arith)
  step-Adds (pong (ok rtt)) u = Adds-none 1 1 u.archival (omega arith)
  step-Adds (pong (err e)) u = Adds-none 1 0 u.archival (omega arith)
  step-Adds (pong_in_text e) u = Adds-none 1 0 u.archival (omega arith)

  expired-Adds :
      (u : Receiver.State)
      → let r = Receiver.step decode k expired u in
        Adds 0 u.archival (left_by r).archival (left (reading_after testing r))
  unfolding Receiver.step
  expired-Adds u = Adds-none 0 0 u.archival (omega arith)

  start-Adds :
      (e : Option Error) (d : ArchivalData)
      → let r = Receiver.start decode k e [] d in
        Adds 0 d (left_by r).archival (left (reading_after testing r))
  unfolding Receiver.start Loop.run
  start-Adds none d = Adds-none 0 0 d (omega arith)
  start-Adds (some e) d = Adds-none 0 0 d (omega arith)

  module _ (deadline : Option Error) {T S : Type 0} (x : Sender T S) where
    -- After `Do` has returned, with the context done.
    record IsLate (s t : State T S) : Type 0 where
      returned_still : t.at ≡ s.at
      done : t.context_done ≡ true
      adds : Adds (left s.reading) s.archival t.archival (left t.reading)

    Step-Adds :
        {s t : State T S} (e : Option Error)
        → s.at ≡ returned e
        → s.context_done ≡ true
        → Step decode k deadline x s t
        → Adds (left s.reading) s.archival t.archival (left t.reading)
    Step-Adds {s} e r c (sender_begins h) = ground (arith, r, h)
    Step-Adds {s} e r c (sender_goes_on y h) = ground (arith, r, h)
    Step-Adds {s} e r c (receiver_begins h) = rw h (start-Adds deadline s.archival)
    Step-Adds {s} e r c (receiver_expires h) = rw h (expired-Adds (receiver_view s))
    Step-Adds {s} e r c (receiver_tests h d) = ground (arith, c, d)
    Step-Adds {s} e r c (receiver_goes_on a h d) = rw h (step-Adds a (receiver_view s))
    Step-Adds {s} e r c (cancels h) = rw h (Adds-none 0 0 s.archival (omega arith))
    Step-Adds {s} e r c context_ends = Adds-none _ _ s.archival (omega arith)
    Step-Adds {s} e r c (returns y h d) = ground (arith, r, h)

    Step-late :
        {s t : State T S} (e : Option Error)
        → s.at ≡ returned e
        → s.context_done ≡ true
        → Step decode k deadline x s t
        → (t.at ≡ s.at) × (t.context_done ≡ true)
    Step-late e r c (sender_begins h) = ground (arith, r, h)
    Step-late e r c (sender_goes_on y h) = ground (arith, r, h)
    Step-late e r c (receiver_begins h) = (refl, c)
    Step-late e r c (receiver_expires h) = (refl, c)
    Step-late e r c (receiver_tests h d) = (refl, c)
    Step-late e r c (receiver_goes_on a h d) = (refl, c)
    Step-late e r c (cancels h) = (refl, c)
    Step-late e r c context_ends = (refl, refl)
    Step-late e r c (returns y h d) = ground (arith, r, h)

    Later-IsLate :
        {s t : State T S} (e : Option Error)
        → s.at ≡ returned e
        → s.context_done ≡ true
        → Later decode k deadline x s t
        → IsLate s t
    Later-IsLate {s} e r c now = record {
      returned_still = refl;
      done = c;
      adds = Adds-none _ _ s.archival (omega arith);
    }
    Later-IsLate {s} {t} e r c (then_later {t = m} l st) =
        let i = Later-IsLate e r c l in
        let (still, done) = Step-late e (i.returned_still ∙ r) i.done st in
        record {
          returned_still = still ∙ i.returned_still;
          done = done;
          adds =
              Adds-trans _ _ _ s.archival m.archival t.archival i.adds
                (Step-Adds e (i.returned_still ∙ r) i.done st);
        }

    -- Once `Do` has returned, all that happens later adds at most one measurement of the client to the data, and
    -- changes nothing else of it.
    pub at_most_one :
        (d : ArchivalData) (s t : State T S) (e : Option Error)
        → Reach decode k deadline x d s
        → s.at ≡ returned e
        → Later decode k deadline x s t
        → (ms : List Measurement) × (length ms ≤ 1)
          × (t.archival
              ≡ record (s.archival) { client_measurements = s.archival.client_measurements ++ ms })
    at_most_one d s t e r h l = elim (Bool-cases s.context_done) [
      | inl c ↦
          let (ms, same, n) = (Later-IsLate e h c l).adds in
          let most = left_one s.reading in (ms, omega (arith, n, most), same)
      | inr c ↦
          let (q, same) = Reach-final decode k deadline x d s t e r h c l in
          ([], omega arith, same ∙ rw (append-nil s.archival.client_measurements) refl)
    ]
