-- ===== src/Ndt7/Download/Sampled.antt =====
-- The download records the measurer's samples (ndt7/measurer/measurer.go, ndt7/download/sender/sender.go).
use ndt_server.Common.{
  ℕ, ◌≡◌, List, [], ◌∷◌, Option, none, some, Error, All, All-append, Bool-cases, inl, inr, leb, ltb,
  ◌/◌, subst, sym,
}
use ndt_server.Ndt7.Download.{
  Measured, Turn, closed, measured, idle, State, save, send, json, ping, filled, doubled, begun,
  start_closing, enough_acked, after_ticks, after_json, after_scale, after_bulk, step, loop,
  initial, end_at, start_at, start,
}
use ndt_server.Ndt7.Loop.{Step, continue, return, left_by, run_inv_all}
use ndt_server.Ndt7.Measurer.Sampling.{IsSample, Reach-IsSound}
use ndt_server.Ndt7.Measurer.{Reach}
use ndt_server.Ndt7.Measurer
use ndt_server.Ndt7.Model.{Measurement, ConnectionInfo, Params, ArchivalData}
use ndt_server.Ndt7.Spec.{max_scaled_message_size, scaling_fraction}

-- The measurements that the rounds of the sender take from the channel.
abbrev pub taken : List Turn → List Measurement
taken [] = []
taken (closed w ∷ ts) = taken ts
taken (measured t ∷ ts) = t.measurement ∷ taken ts
taken (idle w e ∷ ts) = taken ts

module _ (P : Measurement → Type 0) where
  abbrev Keeps : State → Type 0
  Keeps s = All P s.archival.server_measurements

  abbrev Gives : Turn → Type 0
  Gives (closed w) = Unit
  Gives (measured t) = P t.measurement
  Gives (idle w e) = Unit

  Gives-taken : (ts : List Turn) → All P (taken ts) → All Gives ts
  Gives-taken [] h = tt
  Gives-taken (closed w ∷ ts) h = (tt, Gives-taken ts h)
  Gives-taken (measured t ∷ ts) h = (h.0, Gives-taken ts h.1)
  Gives-taken (idle w e ∷ ts) h = (tt, Gives-taken ts h)

  start_closing-Keeps : (w : Option Error) (s : State) → Keeps s → Keeps (start_closing w s)
  unfolding start_closing
  start_closing-Keeps none s h = h
  start_closing-Keeps (some e) s h = h

  after_ticks-Keeps :
      (p : Params) (t : Measured) (e : Option Error) (s : State)
      → Keeps s
      → Keeps (left_by (after_ticks p t e s))
  unfolding after_ticks
  after_ticks-Keeps p t (some e) s h = h
  after_ticks-Keeps p t none s h = elim (Bool-cases (enough_acked p t.measurement.tcp_info)) [
    | inl b ↦ rw b (start_closing-Keeps t.write_close (send ping s) h)
    | inr b ↦ rw b h
  ]

  after_json-Keeps :
      (p : Params) (t : Measured) (e : Option Error) (s : State)
      → P t.measurement
      → Keeps s
      → Keeps (left_by (after_json p t e s))
  unfolding after_json
  after_json-Keeps p t (some e) s q h = h
  after_json-Keeps p t none s q h =
      after_ticks-Keeps p t t.send_ticks (save t.measurement (send (json t.measurement) s))
        (All-append P s.archival.server_measurements (t.measurement ∷ []) h (q, tt))

  after_scale-Keeps : (e : Option Error) (s : State) → Keeps s → Keeps (left_by (after_scale e s))
  unfolding after_scale
  after_scale-Keeps none s h = h
  after_scale-Keeps (some e) s h = h

  after_bulk-Keeps : (w e : Option Error) (s : State) → Keeps s → Keeps (left_by (after_bulk w e s))
  unfolding after_bulk
  after_bulk-Keeps (some x) e s h = h
  after_bulk-Keeps none e s h =
      elim (Bool-cases (leb max_scaled_message_size (filled s).bulk_message_size)) [
        | inl a ↦ rw a h
        | inr a ↦
            elim (Bool-cases
              (ltb ((filled s).total_sent / scaling_fraction) (filled s).bulk_message_size)) [
                | inl b ↦ rw (a, b) h
                | inr b ↦ rw (a, b) (after_scale-Keeps e (doubled (filled s)) h)
              ]
      ]

  step-Keeps :
      (p : Params) (t : Turn) (s : State) → Gives t → Keeps s → Keeps (left_by (step p t s))
  unfolding step
  step-Keeps p (closed w) s q h = start_closing-Keeps w s h
  step-Keeps p (measured t) s q h = after_json-Keeps p t t.write_json s q h
  step-Keeps p (idle w e) s q h = after_bulk-Keeps w e s h

  end_at-Keeps :
      (finish : ℕ) (r : Step State) → Keeps (left_by r) → Keeps (left_by (end_at finish r))
  end_at-Keeps finish (continue s) h = h
  end_at-Keeps finish (return e s) h = h

  start-Keeps :
      (p : Params) (begin finish : ℕ) (prepared deadline : Option Error) (ts : List Turn)
      (d : ArchivalData)
      → All P d.server_measurements
      → All P (taken ts)
      → Keeps (left_by (start p begin finish prepared deadline ts d))
  unfolding start start_at
  start-Keeps p begin finish (some e) deadline ts d h q = h
  start-Keeps p begin finish none (some e) ts d h q = h
  start-Keeps p begin finish none none ts d h q =
      end_at-Keeps finish (loop p ts (begun begin (initial d))) (
        run_inv_all (step p) Keeps Gives (step-Keeps p) ts (begun begin (initial d))
          (Gives-taken ts q) h)

-- A download whose sender takes from the channel what the measurer has sent there, however the two interleave
-- and however the download ends: if the record is new, each server measurement
-- in it names the connection and has both samples, with the same time, or neither.
pub start_sampled :
    (ci : ConnectionInfo) (m : Measurer.State) (p : Params) (begin finish : ℕ)
    (prepared deadline : Option Error) (ts : List Turn) (d : ArchivalData)
    → Reach ci m
    → taken ts ≡ m.received
    → d.server_measurements ≡ []
    → All
        (IsSample ci)
        (left_by (start p begin finish prepared deadline ts d)).archival.server_measurements
start_sampled ci m p begin finish prepared deadline ts d r e n =
    start-Keeps (IsSample ci) p begin finish prepared deadline ts d
      (subst (All (IsSample ci)) (sym n) tt)
      (subst (All (IsSample ci)) (sym e) (Reach-IsSound ci r).samples)
