-- ===== src/Ndt7/Download/Separate.antt =====
-- The download sender neither reads nor writes the client's measurements.
use ndt_server.Common.{
  ℕ, ◌+◌, ◌/◌, ◌^◌, ◌≡◌, refl, List, Option, none, some, Error, Bool, true, false, Bool-cases, inl,
  inr, leb, ltb, ap, ◌∙◌, if◌then◌else◌,
}
use ndt_server.Ndt7.Download.{
  Measured, Turn, closed, measured, idle, State, begun, filled, send, json, ping, save,
  enough_acked, start_closing, after_ticks, after_json, after_scale, after_bulk, step, loop, end_at,
  start_at, start, initial, doubled, count_error,
}
use ndt_server.Ndt7.Loop.{Step, continue, return, map_step, run-map_step}
use ndt_server.Ndt7.Model.{Measurement, Params, ArchivalData}

module _ (ms : List Measurement) (p : Params) where
  abbrev pub with_client : ArchivalData → ArchivalData
  with_client d = record d { client_measurements = ms }

  abbrev pub in_state : State → State
  in_state s = record s { archival = with_client s.archival }

  start_closing-in_state :
      (e : Option Error) (s : State) → start_closing e (in_state s) ≡ in_state (start_closing e s)
  unfolding start_closing
  start_closing-in_state none s = refl
  start_closing-in_state (some e) s = refl

  map_step-if :
      (b : Bool) (x y : Step State)
      → map_step in_state (if b then x else y)
        ≡ (if b then map_step in_state x else map_step in_state y)
  map_step-if true x y = refl
  map_step-if false x y = refl

  after_ticks-in_state :
      (t : Measured) (e : Option Error) (s : State)
      → after_ticks p t e (in_state s) ≡ map_step in_state (after_ticks p t e s)
  unfolding after_ticks
  after_ticks-in_state t (some e) s = refl
  after_ticks-in_state t none s = elim (Bool-cases (enough_acked p t.measurement.tcp_info)) [
    | inl h ↦ rw h (
        ap (λ u. return none (count_error "measurer-closed-early" u))
          (start_closing-in_state t.write_close (send ping s)))
    | inr h ↦ rw h
  ]

  after_json-in_state :
      (t : Measured) (e : Option Error) (s : State)
      → after_json p t e (in_state s) ≡ map_step in_state (after_json p t e s)
  unfolding after_json
  after_json-in_state t (some e) s = refl
  after_json-in_state t none s =
      after_ticks-in_state t t.send_ticks (save t.measurement (send (json t.measurement) s))

  after_scale-in_state :
      (e : Option Error) (s : State)
      → after_scale e (in_state s) ≡ map_step in_state (after_scale e s)
  unfolding after_scale
  after_scale-in_state (some e) s = refl
  after_scale-in_state none s = refl

  after_bulk-in_state :
      (e f : Option Error) (s : State)
      → after_bulk e f (in_state s) ≡ map_step in_state (after_bulk e f s)
  unfolding after_bulk
  after_bulk-in_state (some e) f s = refl
  after_bulk-in_state none f s = elim (Bool-cases (leb (2 ^ 20) s.bulk_message_size)) [
    | inl full ↦ rw full
    | inr more ↦
        rw more
          (elim (Bool-cases (ltb ((s.total_sent + s.bulk_message_size) / 16) s.bulk_message_size)) [
            | inl big ↦ rw big
            | inr small ↦ rw small (after_scale-in_state f (doubled (filled s)))
          ])
  ]

  pub step-in_state :
      (t : Turn) (s : State) → step p t (in_state s) ≡ map_step in_state (step p t s)
  unfolding step
  step-in_state (closed e) s =
      ap (λ u. return none (count_error "measurer-closed" u)) (start_closing-in_state e s)
  step-in_state (measured t) s = after_json-in_state t t.write_json s
  step-in_state (idle e f) s = after_bulk-in_state e f s

  pub end_at-in_state :
      (t : ℕ) (r : Step State) → end_at t (map_step in_state r) ≡ map_step in_state (end_at t r)
  end_at-in_state t (continue s) = refl
  end_at-in_state t (return e s) = refl

  pub start-in_state :
      (begin finish : ℕ) (prepared deadline : Option Error) (ts : List Turn) (d : ArchivalData)
      → start p begin finish prepared deadline ts (with_client d)
        ≡ map_step in_state (start p begin finish prepared deadline ts d)
  unfolding start start_at
  start-in_state begin finish (some e) deadline ts d = refl
  start-in_state begin finish none (some e) ts d = refl
  start-in_state begin finish none none ts d =
      ap (end_at finish) (run-map_step (step p) in_state step-in_state ts (begun begin (initial d)))
      ∙ end_at-in_state finish (loop p ts (begun begin (initial d)))
