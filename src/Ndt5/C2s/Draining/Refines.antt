-- ===== src/Ndt5/C2s/Draining/Refines.antt =====
-- What `drainForeverButMeasureFor` gives when its goroutines have run is what `Ndt5.C2s` says of it
-- (ndt5/c2s/c2s.go).
use ndt_server.Common.{
  ◌≡◌, refl, ◌∙◌, ◌≢◌, arith, Bool, true, List, Option, none, some, Error, Result, ok, err,
}
use ndt_server.Ndt5.C2s.Draining.Channel.{
  IsSent, IsSent-some, IsSent-timeout, IsSent-on, IsSent-failing, IsSent-stopped, IsSent-cancelling,
  IsSent-none, IsSent-ended,
}
use ndt_server.Ndt5.C2s.Draining.{
  Reader, failed, ended, At, selecting, timed_out, failing, stopped, cancelling, returned, State,
  of_result, measured, Step, read_network, read_buffer, read_fails, sends_error, context_ends,
  context_taken, error_taken, stops_timed_out, stops_failing, finds_nothing, finds_metrics, returns,
  closes, Reach, start, later,
}
use ndt_server.Ndt5.C2s.{drained, drain_forever_but_measure_for}
use ndt_server.Web100.{Metrics, Poll, start_measuring, stop_measuring, new_measurer}

-- Why the function goes on: the derived context was done before it was cancelled, or the reader has ended with
-- this error.
abbrev pub IsCause : Option Error → Reader → Bool → Type 0
IsCause none r expired = expired ≡ true
IsCause (some e) r expired = r ≡ ended e

-- The answer of the model, for a cause that there is.
abbrev pub IsAnswer : List Poll → Option Metrics × Option Error → Reader → Bool → Type 0
IsAnswer polls x r expired =
    (e : Option Error) × (x ≡ drain_forever_but_measure_for polls e) × IsCause e r expired

-- Only the function itself cancels the derived context, when it returns.
abbrev pub IsCaused : List Poll → At → Reader → Bool → Bool → Type 0
IsCaused polls selecting r done expired = expired ≡ done
IsCaused polls timed_out r done expired = expired ≡ true
IsCaused polls (failing e) r done expired = r ≡ ended e
IsCaused polls (stopped x) r done expired = IsAnswer polls x r expired
IsCaused polls (cancelling x) r done expired = IsAnswer polls x r expired
IsCaused polls (returned x) r done expired = IsAnswer polls x r expired

pub record Inv (polls : List Poll) (s : State) : Type 0 where
  pub caused : IsCaused polls s.at s.reader s.context_done s.expired
  pub sent : IsSent s.reader s.at s.errs

IsCause-expired : (e : Option Error) (r : Reader) (b : Bool) → IsCause e r b → IsCause e r true
IsCause-expired none r b h = refl
IsCause-expired (some e) r b h = h

IsAnswer-expired :
    (polls : List Poll) (x : Option Metrics × Option Error) (r : Reader) (b : Bool)
    → IsAnswer polls x r b
    → IsAnswer polls x r true
IsAnswer-expired polls x r b (e, q, h) = (e, q, IsCause-expired e r b h)

IsCaused-expired :
    (polls : List Poll) (a : At) (r : Reader) (b c : Bool)
    → IsCaused polls a r b c
    → IsCaused polls a r true true
IsCaused-expired polls selecting r b c h = refl
IsCaused-expired polls timed_out r b c h = refl
IsCaused-expired polls (failing e) r b c h = h
IsCaused-expired polls (stopped x) r b c h = IsAnswer-expired polls x r c h
IsCaused-expired polls (cancelling x) r b c h = IsAnswer-expired polls x r c h
IsCaused-expired polls (returned x) r b c h = IsAnswer-expired polls x r c h

-- A reader that has not ended is no cause.
IsCause-other :
    (e : Option Error) (r r' : Reader) (b : Bool)
    → ((d : Error) → r ≢ ended d)
    → IsCause e r b
    → IsCause e r' b
IsCause-other none r r' b k h = h
IsCause-other (some e) r r' b k h = absurd (k e h)

IsAnswer-other :
    (polls : List Poll) (x : Option Metrics × Option Error) (r r' : Reader) (b : Bool)
    → ((d : Error) → r ≢ ended d)
    → IsAnswer polls x r b
    → IsAnswer polls x r' b
IsAnswer-other polls x r r' b k (e, q, h) = (e, q, IsCause-other e r r' b k h)

IsCaused-other :
    (polls : List Poll) (a : At) (r r' : Reader) (b c : Bool)
    → ((d : Error) → r ≢ ended d)
    → IsCaused polls a r b c
    → IsCaused polls a r' b c
IsCaused-other polls selecting r r' b c k h = h
IsCaused-other polls timed_out r r' b c k h = h
IsCaused-other polls (failing e) r r' b c k h = absurd (k e h)
IsCaused-other polls (stopped x) r r' b c k h = IsAnswer-other polls x r r' c k h
IsCaused-other polls (cancelling x) r r' b c k h = IsAnswer-other polls x r r' c k h
IsCaused-other polls (returned x) r r' b c k h = IsAnswer-other polls x r r' c k h

-- What `StopMeasuring` gives, in the words of `Ndt5.C2s`.
of_result-drained : (r : Result Metrics) → of_result r ≡ drained none r
of_result-drained (ok m) = refl
of_result-drained (err e) = refl

of_result-failing :
    (r : Result Metrics) (e : Error) → ((of_result r).0, some e) ≡ drained (some e) r
of_result-failing (ok m) e = refl
of_result-failing (err d) e = refl

Step-IsCaused :
    {polls : List Poll} {s t : State}
    → Step polls s t
    → Inv polls s
    → IsCaused polls t.at t.reader t.context_done t.expired
unfolding drain_forever_but_measure_for
Step-IsCaused (read_network n h k) i = i.caused
Step-IsCaused (read_buffer n h k) i = i.caused
Step-IsCaused {polls} {s} (read_fails e h) i =
    IsCaused-other polls s.at s.reader (failed e) s.context_done s.expired
      (λ d. rw h (ground arith)) i.caused
Step-IsCaused {polls} {s} (sends_error e h k) i =
    IsCaused-other polls s.at s.reader (ended e) s.context_done s.expired (λ d. rw h (ground arith))
      i.caused
Step-IsCaused {polls} {s} (context_ends h) i =
    IsCaused-expired polls s.at s.reader s.context_done s.expired i.caused
Step-IsCaused (context_taken h k) i = rw h at i.caused ∙ k
Step-IsCaused {polls} {s} (error_taken e h k) i = IsSent-ended s.reader e (rw (h, k) at i.sent)
Step-IsCaused {polls} (stops_timed_out h) i = (
  none,
  of_result-drained (stop_measuring (start_measuring polls new_measurer)),
  rw h at i.caused,
)
Step-IsCaused {polls} (stops_failing e h) i = (
  some e,
  of_result-failing (stop_measuring (start_measuring polls new_measurer)) e,
  rw h at i.caused,
)
Step-IsCaused (finds_nothing e h) i = rw h at i.caused
Step-IsCaused (finds_metrics m e h) i = rw h at i.caused
Step-IsCaused (returns r h) i = rw h at i.caused
Step-IsCaused (closes r h) i = i.caused

Step-IsSent :
    {polls : List Poll} {s t : State} → Step polls s t → Inv polls s → IsSent t.reader t.at t.errs
Step-IsSent (read_network n h k) i = i.sent
Step-IsSent (read_buffer n h k) i = i.sent
Step-IsSent (read_fails e h) i = rw h at i.sent
Step-IsSent {polls} {s} (sends_error e h k) i = IsSent-some e s.at
Step-IsSent (context_ends h) i = i.sent
Step-IsSent {polls} {s} (context_taken h k) i = IsSent-timeout s.reader s.errs (rw h at i.sent)
Step-IsSent {polls} {s} (error_taken e h k) i = IsSent-none s.reader e
Step-IsSent {polls} {s} (stops_timed_out h) i =
    (IsSent-on s.reader s.errs (measured polls) (rw h at i.sent)).0
Step-IsSent {polls} {s} (stops_failing e h) i =
    (IsSent-on s.reader s.errs ((measured polls).0, some e)
      (IsSent-failing s.reader e s.errs (rw h at i.sent))).0
Step-IsSent {polls} {s} (finds_nothing e h) i =
    (IsSent-on s.reader s.errs (none, e)
      (IsSent-stopped s.reader (none, e) s.errs (rw h at i.sent))).1
Step-IsSent {polls} {s} (finds_metrics m e h) i =
    (IsSent-on s.reader s.errs (some m, e)
      (IsSent-stopped s.reader (some m, e) s.errs (rw h at i.sent))).1
Step-IsSent {polls} {s} (returns r h) i =
    (IsSent-on s.reader s.errs r (IsSent-cancelling s.reader r s.errs (rw h at i.sent))).2
Step-IsSent (closes r h) i = i.sent

pub Reach-Inv : {polls : List Poll} {s : State} → Reach polls s → Inv polls s
Reach-Inv (start n b) = record { caused = refl; sent = refl }
Reach-Inv (later r st) = record {
  caused = Step-IsCaused st (Reach-Inv r);
  sent = Step-IsSent st (Reach-Inv r);
}

-- However its goroutines have interleaved, when the function has returned, what it gave is what the model of the
-- upload test says for some end of the transfer: for none, and then the derived context was done before the
-- function itself cancelled it, by the time or with its parent, or for an error, and then it is the error with
-- which the reading goroutine has ended. So if the context was not done before, the function gave the error
-- of the reader.
pub Reach-drain :
    (polls : List Poll) (s : State) (x : Option Metrics × Option Error)
    → Reach polls s
    → s.at ≡ returned x
    → IsAnswer polls x s.reader s.expired
Reach-drain polls s x r h = rw h at (Reach-Inv r).caused
