-- ===== src/Ndt7/Download/Rule.antt =====
-- To show that the sender keeps a property of its state, show that each of its actions does.
use ndt_server.Common.{
  ℕ, ◌+◌, ◌/◌, ◌^◌, ◌≤◌, ◌<◌, inl, inr, List, Option, none, some, String, Error, arith, Bool-cases,
  leb, ltb,
}
use ndt_server.Ndt7.Download.{
  json, ping, closing, Measured, Turn, begun, ended, doubled, closed, measured, idle, State, send,
  save, filled, count_error, enough_acked, start_closing, after_ticks, after_json, after_scale,
  after_bulk, step, loop, end_at, start_at, start, initial,
}
use ndt_server.Ndt7.Loop.{Step, continue, return, left_by, run_inv}
use ndt_server.Ndt7.Model.{Measurement, Params, ArchivalData}

-- The actions of the sender: counting an error, setting the times of the archival data, the four
-- kinds of message, and doubling the message size, which two tests guard.
pub record IsKept {ℓ} (P : State → Type ℓ) : Type ℓ where
  pub counts : (l : String) (s : State) → P s → P (count_error l s)
  pub begins : (t : ℕ) (s : State) → P s → P (begun t s)
  pub ends : (t : ℕ) (s : State) → P s → P (ended t s)
  pub closes : (s : State) → P s → P (send closing s)
  pub pings : (s : State) → P s → P (send ping s)
  pub saves : (m : Measurement) (s : State) → P s → P (save m (send (json m) s))
  pub fills : (s : State) → P s → P (filled s)
  pub doubles :
      (s : State)
      → s.bulk_message_size < 2 ^ 20
      → s.bulk_message_size ≤ s.total_sent / 16
      → P s
      → P (doubled s)

module _ {ℓ} (P : State → Type ℓ) (k : IsKept P) (p : Params) where
  after_scale_inv : (f : Option Error) (s : State) → P s → P (left_by (after_scale f s))
  unfolding after_scale
  after_scale_inv (some e) s v = k.counts "make-prepared-message" s v
  after_scale_inv none s v = v

  after_bulk_inv : (e f : Option Error) (s : State) → P s → P (left_by (after_bulk e f s))
  unfolding after_bulk
  after_bulk_inv (some e) f s v = k.counts "write-prepared-message" s v
  after_bulk_inv none f s v = elim (Bool-cases (leb (2 ^ 20) s.bulk_message_size)) [
    | inl full ↦ rw full (k.fills s v)
    | inr more ↦
        rw more
          (elim (Bool-cases (ltb ((s.total_sent + s.bulk_message_size) / 16) s.bulk_message_size)) [
            | inl big ↦ rw big (k.fills s v)
            | inr small ↦ rw small (
                after_scale_inv f (doubled (filled s))
                  (k.doubles (filled s) (ground arith) (ground arith) (k.fills s v)))
          ])
  ]

  start_closing_inv : (e : Option Error) (s : State) → P s → P (start_closing e s)
  unfolding start_closing
  start_closing_inv none s v = k.closes s v
  start_closing_inv (some e) s v = v

  after_ticks_inv :
      (t : Measured) (e : Option Error) (s : State) → P s → P (left_by (after_ticks p t e s))
  unfolding after_ticks
  after_ticks_inv t (some e) s v = k.counts "ping-send-ticks" s v
  after_ticks_inv t none s v =
      let pinged = k.pings s v in
      elim (Bool-cases (enough_acked p t.measurement.tcp_info)) [
        | inl enough ↦ rw enough (
            k.counts "measurer-closed-early" _
              (start_closing_inv t.write_close (send ping s) pinged))
        | inr more ↦ rw more pinged
      ]

  after_json_inv :
      (t : Measured) (e : Option Error) (s : State) → P s → P (left_by (after_json p t e s))
  unfolding after_json
  after_json_inv t (some e) s v = k.counts "write-json" s v
  after_json_inv t none s v = after_ticks_inv t t.send_ticks _ (k.saves t.measurement s v)

  pub step_inv : (t : Turn) (s : State) → P s → P (left_by (step p t s))
  unfolding step
  step_inv (closed e) s v = k.counts "measurer-closed" _ (start_closing_inv e s v)
  step_inv (measured t) s v = after_json_inv t t.write_json s v
  step_inv (idle e f) s v = after_bulk_inv e f s v

  end_at_inv : (t : ℕ) (r : Step State) → P (left_by r) → P (left_by (end_at t r))
  end_at_inv t (continue s) v = v
  end_at_inv t (return e s) v = k.ends t s v

  start_at_inv :
      (begin finish : ℕ) (e : Option Error) (ts : List Turn) (s : State)
      → P s
      → P (left_by (start_at p begin finish e ts s))
  unfolding start_at
  start_at_inv begin finish (some e) ts s v = k.counts "set-write-deadline" s v
  start_at_inv begin finish none ts s v =
      end_at_inv finish (loop p ts (begun begin s))
        (run_inv (step p) P step_inv ts (begun begin s) (k.begins begin s v))

  pub start_inv :
      (begin finish : ℕ) (prepared deadline : Option Error) (ts : List Turn) (d : ArchivalData)
      → P (initial d)
      → P (left_by (start p begin finish prepared deadline ts d))
  unfolding start
  start_inv begin finish (some e) deadline ts d v = k.counts "make-prepared-message" _ v
  start_inv begin finish none deadline ts d v = start_at_inv begin finish deadline ts (initial d) v
