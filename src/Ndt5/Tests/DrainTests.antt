-- ===== src/Ndt5/Tests/DrainTests.antt =====
-- Runs of the goroutines that drain an upload.
use ndt_server.Common.{◌≤◌, refl, ◌⊎◌, true, false, Option, none, some, Error, codes}
use ndt_server.Ndt5.C2s.Draining.Ends.{Moves, stay, more, HasEnded, CanGo, drain-Ends}
use ndt_server.Ndt5.C2s.Draining.Refines.{IsAnswer, Reach-drain}
use ndt_server.Ndt5.C2s.Draining.{
  reading, ended, returned, State, read_network, read_buffer, read_fails, sends_error, context_ends,
  context_taken, error_taken, stops_timed_out, stops_failing, finds_metrics, returns, closes, Reach,
  start, later,
}
use ndt_server.Ndt5.C2s.{drain_forever_but_measure_for}
use ndt_server.Ndt5.Tests.{session}
use ndt_server.Web100
use ndt_server.Web100.{Metrics}

abbrev reset : Error
reset = codes "reset"

-- The context ends, the function returns and the connection is closed, with one read in the buffer.
abbrev given : Option Metrics × Option Error
given = drain_forever_but_measure_for session.polls none

abbrev timed_out : State
timed_out = record {
  reader = reading;
  buffered = 1;
  errs = none;
  context_done = true;
  expired = true;
  closed = true;
  at = returned given;
}

timed_out-Reach : Reach session.polls timed_out
unfolding drain_forever_but_measure_for Web100.stop_measuring Web100.start_measuring
    Web100.measure_via_polling Web100.measure_until_context_cancellation Web100.summarize
    Web100.poll_snaps
timed_out-Reach =
    let stopping =
      later (later (later (start 1 false) (context_ends refl)) (context_taken refl refl))
        (stops_timed_out refl) in
    later (later (later stopping (finds_metrics _ _ refl)) (returns given refl)) (closes given refl)

-- Then the reader reads, fails and ends.
abbrev left_over : State
left_over = record timed_out { reader = ended reset; buffered = 0; errs = some reset }

three_moves : Moves session.polls timed_out 3 left_over
three_moves =
    more (more (more stay (read_buffer 0 refl refl)) (read_fails reset refl))
      (sends_error reset refl refl)

drain-Ends_example : (3 ≤ 3) × (HasEnded (ended reset) ⊎ CanGo session.polls left_over)
drain-Ends_example = drain-Ends session.polls timed_out left_over 3 timed_out-Reach refl three_moves

-- Or the reader fails first, and the function takes its error.
abbrev broken_off : State
broken_off = record {
  reader = ended reset;
  buffered = 7;
  errs = none;
  context_done = true;
  expired = false;
  closed = false;
  at = returned (drain_forever_but_measure_for session.polls (some reset));
}

broken_off-Reach : Reach session.polls broken_off
unfolding drain_forever_but_measure_for Web100.stop_measuring Web100.start_measuring
    Web100.measure_via_polling Web100.measure_until_context_cancellation Web100.summarize
    Web100.poll_snaps
broken_off-Reach =
    let sent =
      later (later (later (start 0 false) (read_network 7 refl refl)) (read_fails reset refl))
        (sends_error reset refl refl) in
    let stopping = later (later sent (error_taken reset refl refl)) (stops_failing reset refl) in
    later (later stopping (finds_metrics _ _ refl)) (returns _ refl)

Reach-drain_example :
    IsAnswer session.polls
      (drain_forever_but_measure_for session.polls (some reset))
      (ended reset)
      false
Reach-drain_example = Reach-drain session.polls broken_off _ broken_off-Reach refl
