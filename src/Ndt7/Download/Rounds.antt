-- ===== src/Ndt7/Download/Rounds.antt =====
-- The download sender by its rounds: one more turn is one more round.
use ndt_server.Common.{ℕ, ◌≡◌, List, [], ◌∷◌, ◌++◌, Option, none, some, Error, arith, ap}
use ndt_server.Ndt7.Download.{Turn, State, begun, step, end_at, start_at, start, initial}
use ndt_server.Ndt7.Loop.{Step, continue, return, run-snoc}
use ndt_server.Ndt7.Model.{Params, ArchivalData}

end_at-continue : (f : ℕ) (r : Step State) (u : State) → end_at f r ≡ continue u → r ≡ continue u
end_at-continue f (continue s) u h = h
end_at-continue f (return e s) u h = ground arith

pub start-snoc :
    (p : Params) (b f : ℕ) (prepared deadline : Option Error) (ts : List Turn) (t : Turn)
    (d : ArchivalData) (u : State)
    → start p b f prepared deadline ts d ≡ continue u
    → start p b f prepared deadline (ts ++ t ∷ []) d ≡ end_at f (step p t u)
unfolding start start_at
start-snoc p b f (some e) deadline ts t d u h = ground arith
start-snoc p b f none (some e) ts t d u h = ground arith
start-snoc p b f none none ts t d u h =
    ap (end_at f) (run-snoc (step p) ts t (begun b (initial d)) u (end_at-continue f _ u h))
