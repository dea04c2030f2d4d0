-- ===== src/Ndt5/C2s/Draining/Ends.antt =====
-- The goroutines of `drainForeverButMeasureFor` end (ndt5/c2s/c2s.go).
use ndt_server.Common.{ℕ, ◌+◌, ◌≤◌, ◌≡◌, refl, ◌⊎◌, inl, inr, true, List, [], Error, arith}
use ndt_server.Ndt5.C2s.Draining.Channel.{IsSent}
use ndt_server.Ndt5.C2s.Draining.Refines.{Reach-Inv}
use ndt_server.Ndt5.C2s.Draining.{
  Reader, reading, failed, ended, State, Step, read_network, read_buffer, read_fails, sends_error,
  context_ends, context_taken, error_taken, stops_timed_out, stops_failing, finds_nothing,
  finds_metrics, returns, closes, Reach, later,
}
use ndt_server.Web100.{Poll}

-- The reader's moves that are left once the connection is closed.
abbrev left : Reader → ℕ → ℕ
left reading n = n + 2
left (failed e) n = 1
left (ended e) n = 0

-- One for a move of the reader.
abbrev pub reader_moves : {polls : List Poll} {s t : State} → Step polls s t → ℕ
reader_moves (read_network n h k) = 1
reader_moves (read_buffer n h k) = 1
reader_moves (read_fails e h) = 1
reader_moves (sends_error e h k) = 1
reader_moves (context_ends h) = 0
reader_moves (context_taken h k) = 0
reader_moves (error_taken e h k) = 0
reader_moves (stops_timed_out h) = 0
reader_moves (stops_failing e h) = 0
reader_moves (finds_nothing e h) = 0
reader_moves (finds_metrics m e h) = 0
reader_moves (returns r h) = 0
reader_moves (closes r h) = 0

-- So many moves of the reader among the steps from the one state to the other.
pub data Moves (polls : List Poll) (s : State) : ℕ → State → Type 0 where
  stay : Moves polls s 0 s
  more :
      {n : ℕ} {t u : State}
      → Moves polls s n t
      → (st : Step polls t u) → Moves polls s (reader_moves st + n) u

Step-left :
    {polls : List Poll} {s t : State}
    → (st : Step polls s t) → s.closed ≡ true
    → reader_moves st + left t.reader t.buffered ≤ left s.reader s.buffered
Step-left (read_network n h k) c = ground arith
Step-left (read_buffer n h k) c = rw (h, k) (omega arith)
Step-left (read_fails e h) c = rw h (omega arith)
Step-left (sends_error e h k) c = rw h (omega arith)
Step-left (context_ends h) c = omega arith
Step-left (context_taken h k) c = omega arith
Step-left (error_taken e h k) c = omega arith
Step-left (stops_timed_out h) c = omega arith
Step-left (stops_failing e h) c = omega arith
Step-left (finds_nothing e h) c = omega arith
Step-left (finds_metrics m e h) c = omega arith
Step-left (returns r h) c = omega arith
Step-left (closes r h) c = omega arith

Step-closed : {polls : List Poll} {s t : State} → Step polls s t → s.closed ≡ true → t.closed ≡ true
Step-closed (read_network n h k) c = c
Step-closed (read_buffer n h k) c = c
Step-closed (read_fails e h) c = c
Step-closed (sends_error e h k) c = c
Step-closed (context_ends h) c = c
Step-closed (context_taken h k) c = c
Step-closed (error_taken e h k) c = c
Step-closed (stops_timed_out h) c = c
Step-closed (stops_failing e h) c = c
Step-closed (finds_nothing e h) c = c
Step-closed (finds_metrics m e h) c = c
Step-closed (returns r h) c = c
Step-closed (closes r h) c = refl

Moves-closed :
    {polls : List Poll} {s t : State} {n : ℕ}
    → Moves polls s n t
    → s.closed ≡ true
    → t.closed ≡ true
Moves-closed stay c = c
Moves-closed (more m st) c = Step-closed st (Moves-closed m c)

Moves-left :
    {polls : List Poll} {s t : State} {n : ℕ}
    → Moves polls s n t
    → s.closed ≡ true
    → n + left t.reader t.buffered ≤ left s.reader s.buffered
Moves-left stay c = omega arith
Moves-left (more m st) c = omega (arith, Step-left st (Moves-closed m c), Moves-left m c)

Moves-Reach :
    {polls : List Poll} {s t : State} {n : ℕ} → Moves polls s n t → Reach polls s → Reach polls t
Moves-Reach stay r = r
Moves-Reach (more m st) r = later (Moves-Reach m r) st

left_bound : (r : Reader) (n : ℕ) → left r n ≤ n + 2
left_bound reading n = omega arith
left_bound (failed e) n = omega arith
left_bound (ended e) n = omega arith

abbrev pub HasEnded : Reader → Type 0
HasEnded r = (e : Error) × (r ≡ ended e)

-- The reader itself can go on.
abbrev pub CanGo : List Poll → State → Type 0
CanGo polls s = (t : State) × (st : Step polls s t) × (reader_moves st ≡ 1)

goes_on :
    (polls : List Poll) (s : State) (r : Reader)
    → s.reader ≡ r
    → IsSent r s.at s.errs
    → HasEnded r ⊎ CanGo polls s
goes_on polls s reading h k = inr (_, read_fails [] h, refl)
goes_on polls s (failed e) h k = inr (_, sends_error e h k, refl)
goes_on polls s (ended e) h k = inl (e, refl)

-- Once `ManageTest` has closed the test connection, whatever the other goroutines do, and whether the function has
-- taken the error from the channel or has returned because of the time: the reading goroutine makes at most two moves
-- more than there are reads that the buffers can answer, and at every moment it has ended or can make
-- the next move, so it ends.
pub drain-Ends :
    (polls : List Poll) (s t : State) (n : ℕ)
    → Reach polls s
    → s.closed ≡ true
    → Moves polls s n t
    → (n ≤ s.buffered + 2) × (HasEnded t.reader ⊎ CanGo polls t)
drain-Ends polls s t n r c m = (
  omega (arith, Moves-left m c, left_bound s.reader s.buffered),
  goes_on polls t t.reader refl (Reach-Inv (Moves-Reach m r)).sent,
)
