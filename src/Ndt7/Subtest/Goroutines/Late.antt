-- ===== src/Ndt7/Subtest/Goroutines/Late.antt =====
-- When nothing writes to the data any more after `Do` of a subtest has returned, and when something may.
use ndt_server.Common.{
  ◌≡◌, refl, Bool, true, false, ◌||◌, [], ◌∷◌, ◌++◌, Option, some, Bytes, Error, ok, arith,
}
use ndt_server.Ndt7.Model.{Measurement, ArchivalData}
use ndt_server.Ndt7.Receiver
use ndt_server.Ndt7.Receiver.{ReceiverKind, text}
use ndt_server.Ndt7.Subtest.Goroutines.{
  Reading, unstarted, looping, reading, cancelling, completed, At, preparing, sending, waiting,
  returned, Sender, State, is_completed, recv_done, at_after, Step, sender_begins, sender_goes_on,
  receiver_begins, receiver_expires, receiver_tests, receiver_goes_on, cancels, context_ends,
  returns, Reach, begin, later,
}
use ndt_server.Ndt7.Loop.{continue, return}
use ndt_server.Ndt7.Loop

module _ (decode : Bytes → Option Measurement) (k : ReceiverKind) (deadline : Option Error)
    {T S : Type 0} (x : Sender T S) where
  -- `Do` has returned only if `recv` is done.
  abbrev IsAwaited : At → Bool → Type 0
  IsAwaited preparing b = Unit
  IsAwaited sending b = Unit
  IsAwaited (waiting e) b = Unit
  IsAwaited (returned e) b = b ≡ true

  IsAwaited-true : (a : At) → IsAwaited a true
  IsAwaited-true preparing = tt
  IsAwaited-true sending = tt
  IsAwaited-true (waiting e) = tt
  IsAwaited-true (returned e) = refl

  IsAwaited-after : (r : Loop.Step S) (b : Bool) → IsAwaited (at_after r) b
  IsAwaited-after (continue u) b = tt
  IsAwaited-after (return e u) b = tt

  IsAwaited-or : (a : At) (b c c' : Bool) → c ≡ false → IsAwaited a (b || c) → IsAwaited a (b || c')
  IsAwaited-or a true c c' e h = h
  IsAwaited-or preparing false c c' e h = tt
  IsAwaited-or sending false c c' e h = tt
  IsAwaited-or (waiting x) false c c' e h = tt
  IsAwaited-or (returned x) false c c' e h = ground arith

  uncompleted : (q q' : Reading) → q ≡ q' → is_completed q' ≡ false → is_completed q ≡ false
  uncompleted q q' e h = rw e h

  Step-IsAwaited :
      {s t : State T S}
      → Step decode k deadline x s t
      → IsAwaited s.at (recv_done s)
      → IsAwaited t.at (recv_done t)
  unfolding recv_done
  Step-IsAwaited (sender_begins h) k = IsAwaited-after _ _
  Step-IsAwaited (sender_goes_on t h) k = IsAwaited-after _ _
  Step-IsAwaited {s} (receiver_begins h) k =
      IsAwaited-or s.at s.context_done (is_completed s.reading) _ (rw h refl) k
  Step-IsAwaited {s} (receiver_expires h) k =
      IsAwaited-or s.at s.context_done (is_completed s.reading) _ (rw h refl) k
  Step-IsAwaited {s} (receiver_tests h c) k =
      IsAwaited-or s.at s.context_done (is_completed s.reading) _ (rw h refl) k
  Step-IsAwaited {s} (receiver_goes_on a h e) k =
      IsAwaited-or s.at s.context_done (is_completed s.reading) _ (rw h refl) k
  Step-IsAwaited {s} (cancels h) k =
      IsAwaited-or s.at s.context_done (is_completed s.reading) _ (rw h refl) k
  Step-IsAwaited {s} context_ends k = IsAwaited-true s.at
  Step-IsAwaited (returns e h r) k = r

  pub Reach-IsAwaited :
      {d : ArchivalData} {s : State T S}
      → Reach decode k deadline x d s
      → IsAwaited s.at (recv_done s)
  Reach-IsAwaited (begin b) = tt
  Reach-IsAwaited (later r st) = Step-IsAwaited st (Reach-IsAwaited r)

  -- Any number of steps later.
  pub data Later (s : State T S) : State T S → Type 0 where
    now : Later s s
    then_later : {t u : State T S} → Later s t → Step decode k deadline x t u → Later s u

  -- The data is as it was, and `Do` and the receiver have ended.
  pub record IsFinal (s t : State T S) : Type 0 where
    pub same : t.archival ≡ s.archival
    pub returned_still : t.at ≡ s.at
    pub completed_still : t.reading ≡ completed

  Step-IsFinal :
      {s t u : State T S} (e : Option Error)
      → s.at ≡ returned e
      → Step decode k deadline x t u
      → IsFinal s t
      → IsFinal s u
  Step-IsFinal {s} {t} e r (sender_begins h) f = ground (arith, f.returned_still)
  Step-IsFinal {s} {t} e r (sender_goes_on x h) f = ground (arith, f.returned_still)
  Step-IsFinal e r (receiver_begins h) f = ground (arith, f.completed_still)
  Step-IsFinal e r (receiver_expires h) f = ground (arith, f.completed_still)
  Step-IsFinal e r (receiver_tests h c) f = ground (arith, f.completed_still)
  Step-IsFinal e r (receiver_goes_on a h z) f = ground (arith, f.completed_still)
  Step-IsFinal e r (cancels h) f = ground (arith, f.completed_still)
  Step-IsFinal e r context_ends f = record {
    same = f.same;
    returned_still = f.returned_still;
    completed_still = f.completed_still;
  }
  Step-IsFinal e r (returns x h k) f = ground (arith, f.returned_still)

  Later-IsFinal :
      {s t : State T S} (e : Option Error)
      → s.at ≡ returned e
      → s.reading ≡ completed
      → Later s t
      → IsFinal s t
  Later-IsFinal e r c now = record { same = refl; returned_still = refl; completed_still = c }
  Later-IsFinal e r c (then_later l st) = Step-IsFinal e r st (Later-IsFinal e r c l)

  completed_if : (q : Reading) → is_completed q ≡ true → q ≡ completed
  completed_if completed h = refl
  completed_if unstarted h = ground arith
  completed_if (looping q) h = ground arith
  completed_if cancelling h = ground arith

  -- If `Do` has returned and the context that it was given is not done: the receiver has completed, and
  -- nothing that happens later changes the data.
  pub Reach-final :
      (d : ArchivalData) (s t : State T S) (e : Option Error)
      → Reach decode k deadline x d s
      → s.at ≡ returned e
      → s.context_done ≡ false
      → Later s t
      → (s.reading ≡ completed) × (t.archival ≡ s.archival)
  unfolding recv_done
  Reach-final d s t e r h c l =
      let done : is_completed s.reading ≡ true = rw (h, c) at (Reach-IsAwaited r) in
      let q = completed_if s.reading done in (q, (Later-IsFinal e h q l).same)

  -- While `Do` waits for the receiver and the receiver is in a read: the end of the context lets `Do` return
  -- with the data as it is, and a message that the client sends is then still added to it.
  pub late_measurement :
      (d : ArchivalData) (s : State T S) (e : Option Error) (b : Bytes) (m : Measurement)
      → Reach decode k deadline x d s
      → s.at ≡ waiting e
      → s.reading ≡ looping reading
      → decode b ≡ some m
      → (t : State T S) × (u : State T S) × Reach decode k deadline x d t
        × (t.at ≡ returned e)
        × (t.archival ≡ s.archival)
        × Later t u
        × (u.archival.client_measurements ≡ s.archival.client_measurements ++ m ∷ [])
  unfolding recv_done Receiver.step
  late_measurement d s e b m r h q g = (
    _,
    _,
    later (later r context_ends) (returns e h refl),
    refl,
    refl,
    then_later now (receiver_goes_on (text (ok b)) q refl),
    rw g refl,
  )
