-- ===== src/Ndt7/Upload/Separate.antt =====
-- The upload sender neither reads nor writes the client's measurements.
use ndt_server.Common.{ℕ, ◌≡◌, refl, List, Option, none, some, Error, ap, ◌∙◌}
use ndt_server.Ndt7.Loop.{Step, continue, return, map_step, run, run-map_step}
use ndt_server.Ndt7.Model.{Measurement, ArchivalData}
use ndt_server.Ndt7.Upload.{
  Turn, closed, measured, State, begun, step, end_at, start, initial, start_closing, after_ticks,
  after_json,
}

module _ (ms : List Measurement) where
  abbrev pub with_client : ArchivalData → ArchivalData
  with_client d = record d { client_measurements = ms }

  abbrev pub in_state : State → State
  in_state s = record s { archival = with_client s.archival }

  pub step-in_state : (t : Turn) (s : State) → step t (in_state s) ≡ map_step in_state (step t s)
  unfolding step start_closing after_json after_ticks
  step-in_state (closed none) s = refl
  step-in_state (closed (some e)) s = refl
  step-in_state (measured m (some e) ticks) s = refl
  step-in_state (measured m none (some e)) s = refl
  step-in_state (measured m none none) s = refl

  pub end_at-in_state :
      (t : ℕ) (r : Step State) → end_at t (map_step in_state r) ≡ map_step in_state (end_at t r)
  end_at-in_state t (continue s) = refl
  end_at-in_state t (return e s) = refl

  pub start-in_state :
      (begin finish : ℕ) (deadline : Option Error) (ts : List Turn) (d : ArchivalData)
      → start begin finish deadline ts (with_client d)
        ≡ map_step in_state (start begin finish deadline ts d)
  unfolding start
  start-in_state begin finish (some e) ts d = refl
  start-in_state begin finish none ts d =
      ap (end_at finish) (run-map_step step in_state step-in_state ts (begun begin (initial d)))
      ∙ end_at-in_state finish (run step ts (begun begin (initial d)))
