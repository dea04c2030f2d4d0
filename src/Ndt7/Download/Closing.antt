-- ===== src/Ndt7/Download/Closing.antt =====
-- How the loop of the download sender ends.
use ndt_server.Common.{
  ◌≡◌, refl, inl, inr, true, ◌++◌, List, [], ◌∷◌, Option, some, none, arith, ◌≤ℤ◌, ap, ◌∙◌, Any,
}
use ndt_server.Ndt7.Download.{
  json, ping, closing, Measured, Turn, closed, measured, idle, State, send, save, count_error,
  enough_acked, start_closing, step, loop, after_ticks, after_json, after_bulk, after_scale,
}
use ndt_server.Ndt7.Loop.{Step, continue, return, and_then, run, run-append}
use ndt_server.Ndt7.Model.{TcpSample, Params}

-- The state after a measurement is sent with its ping, and the connection is being closed.
abbrev pub closed_early : Measured → State → State
closed_early t s =
    count_error "measurer-closed-early"
      (send closing (send ping (save t.measurement (send (json t.measurement) s))))

enough_acked_lem :
    (p : Params) (i : TcpSample)
    → p.is_early_exit ≡ true
    → p.max_bytes ≤ℤ i.linux_tcp_info.bytes_acked
    → enough_acked p (some i) ≡ true
unfolding enough_acked
enough_acked_lem p i e l = ground arith

step_early_exit :
    (p : Params) (t : Measured) (s : State)
    → enough_acked p t.measurement.tcp_info ≡ true
    → t.write_json ≡ none
    → t.send_ticks ≡ none
    → t.write_close ≡ none
    → step p (measured t) s ≡ return none (closed_early t s)
unfolding step after_json after_ticks start_closing
step_early_exit p t s h j k c = rw (j, after_json) (rw (k, after_ticks) (rw (h, c, start_closing)))

-- With an early exit, the first measurement that shows enough bytes acknowledged ends the test: it
-- is sent and recorded, the closing message follows, no error is returned, and nothing that would
-- come later is sent.
pub loop_early_exit :
    (p : Params) (ts us : List Turn) (t : Measured) (i : TcpSample) (s s' : State)
    → loop p ts s ≡ continue s'
    → p.is_early_exit ≡ true
    → t.measurement.tcp_info ≡ some i
    → p.max_bytes ≤ℤ i.linux_tcp_info.bytes_acked
    → t.write_json ≡ none
    → t.send_ticks ≡ none
    → t.write_close ≡ none
    → loop p (ts ++ measured t ∷ us) s ≡ return none (closed_early t s')
unfolding run
loop_early_exit p ts us t i s s' r e n l j k c =
    let h = enough_acked_lem p i e l in
    rw (
      run-append (step p) ts (measured t ∷ us) s,
      r,
      step_early_exit p t s' (ap (enough_acked p) n ∙ h) j k c,
    )

-- A round that may end the test without an error: the measurer has terminated, or the early exit is
-- on and the measurement shows enough bytes acknowledged.
abbrev pub Ends : Params → Turn → Type 0
Ends p (closed e) = Unit
Ends p (measured t) =
    (p.is_early_exit ≡ true)
    × ((i : TcpSample) × (t.measurement.tcp_info ≡ some i)
        × (p.max_bytes ≤ℤ i.linux_tcp_info.bytes_acked))
Ends p (idle e f) = ⊥

enough_acked-Ends :
    (p : Params) (o : Option TcpSample)
    → enough_acked p o ≡ true
    → (p.is_early_exit ≡ true)
      × ((i : TcpSample) × (o ≡ some i) × (p.max_bytes ≤ℤ i.linux_tcp_info.bytes_acked))
unfolding enough_acked
enough_acked-Ends p none h = ground arith
enough_acked-Ends p (some i) h = (ground arith, (i, refl, ground arith))

step-Ends : (p : Params) (t : Turn) (s s' : State) → step p t s ≡ return none s' → Ends p t
unfolding step after_json after_ticks after_bulk after_scale
step-Ends p (closed e) s s' h = tt
step-Ends p (measured t) s s' h = enough_acked-Ends p t.measurement.tcp_info (ground arith)
step-Ends p (idle e f) s s' h = ground arith

-- The loop returns without an error only after a round in which the measurer has terminated, or in which
-- the early exit is on and the measurement shows enough bytes acknowledged.
pub loop-Ends :
    (p : Params) (ts : List Turn) (s s' : State) → loop p ts s ≡ return none s' → Any (Ends p) ts
unfolding run
loop-Ends p [] s s' h = cc
loop-Ends p (t ∷ ts) s s' h = first_or_later (step p t s) refl (λ u. loop-Ends p ts u s') h
  where
    first_or_later :
        (r : Step State)
        → step p t s ≡ r
        → ((u : State) → loop p ts u ≡ return none s' → Any (Ends p) ts)
        → and_then r (loop p ts) ≡ return none s'
        → Any (Ends p) (t ∷ ts)
    first_or_later (continue u) e later f = inr (later u f)
    first_or_later (return none u) e later f = inl (step-Ends p t s u e)
    first_or_later (return (some x) u) e later f = cc
