-- ===== src/Ndt7/Upload/Rounds.antt =====
-- The upload sender by its rounds: one more turn is one more round.
use ndt_server.Common.{ℕ, ◌≡◌, List, [], ◌∷◌, ◌++◌, Option, none, some, Error, arith, ap}
use ndt_server.Ndt7.Loop.{Step, continue, return, run-snoc}
use ndt_server.Ndt7.Model.{ArchivalData}
use ndt_server.Ndt7.Upload.{Turn, State, begun, step, end_at, start, initial}

end_at-continue : (f : ℕ) (r : Step State) (u : State) → end_at f r ≡ continue u → r ≡ continue u
end_at-continue f (continue s) u h = h
end_at-continue f (return e s) u h = ground arith

pub start-snoc :
    (b f : ℕ) (deadline : Option Error) (ts : List Turn) (t : Turn) (d : ArchivalData) (u : State)
    → start b f deadline ts d ≡ continue u
    → start b f deadline (ts ++ t ∷ []) d ≡ end_at f (step t u)
unfolding start
start-snoc b f (some e) ts t d u h = ground arith
start-snoc b f none ts t d u h =
    ap (end_at f) (run-snoc step ts t (begun b (initial d)) u (end_at-continue f _ u h))
