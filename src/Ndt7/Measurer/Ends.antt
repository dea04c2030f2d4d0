-- ===== src/Ndt7/Measurer/Ends.antt =====
-- `Stop` returns (ndt7/measurer/measurer.go).
use ndt_server.Common.{ℕ, suc, ◌+◌, ◌≤◌, ◌≡◌, ◌≢◌, refl, ◌⊎◌, inl, inr, true, arith}
use ndt_server.Ndt7.Measurer.{
  At, starting, ranging, sending, finished, Stopping, not_called, draining, stopped, State, Step,
  no_ticker, ticker_made, ticked, ticks_ended, consumed, drained, timed_out, stop_called,
  stop_returned,
}
use ndt_server.Ndt7.Model.{ConnectionInfo}

module _ (ci : ConnectionInfo) where
  -- The steps that are left, beside the end of the timeout.
  abbrev pub rank_at : At → ℕ
  rank_at starting = 3
  rank_at ranging = 2
  rank_at (sending m) = 3
  rank_at finished = 1

  abbrev pub rank : Stopping → At → ℕ
  rank not_called a = suc (rank_at a)
  rank draining a = rank_at a
  rank stopped a = 0

  -- 0 for the end of the timeout, 1 for a step of `loop`, its consumer or `Stop`.
  abbrev pub turns : {s t : State} → Step ci s t → ℕ
  turns (no_ticker a) = 1
  turns (ticker_made a) = 1
  turns (ticked e r a o) = 1
  turns (ticks_ended a o) = 1
  turns (consumed m a p) = 1
  turns (drained m a p) = 1
  turns timed_out = 0
  turns (stop_called p) = 1
  turns (stop_returned p a) = 1

  -- A run from `s` with a number of steps that are not the end of the timeout.
  pub data Moves (s : State) : ℕ → State → Type 0 where
    stay : Moves s 0 s
    more : {n : ℕ} {t u : State} → Moves s n t → (st : Step ci t u) → Moves s (turns st + n) u

  -- `Stop` has returned, or nothing is left before `stopped`.
  record Winds (s : State) : Type 0 where
    called : s.stop ≢ not_called
    over : s.ticks_over ≡ true
    last : (s.stop ≡ draining) ⊎ (s.at ≡ finished)

  Step-Winds : {s t : State} → Step ci s t → Winds s → Winds t
  Step-Winds (no_ticker a) h = ground arith
  Step-Winds (ticker_made a) h = ground arith
  Step-Winds (ticked e r a o) h = ground arith
  Step-Winds (ticks_ended a o) h = ground arith
  Step-Winds (consumed m a p) h = ground arith
  Step-Winds (drained m a p) h = ground arith
  Step-Winds timed_out h = ground arith
  Step-Winds (stop_called p) h = ground arith
  Step-Winds (stop_returned p a) h = ground arith

  Step-rank :
      {s t : State} (st : Step ci s t) → Winds s → turns st + rank t.stop t.at ≤ rank s.stop s.at
  Step-rank (no_ticker a) h = ground arith
  Step-rank (ticker_made a) h = ground arith
  Step-rank (ticked e r a o) h = ground arith
  Step-rank (ticks_ended a o) h = ground arith
  Step-rank (consumed m a p) h = ground arith
  Step-rank (drained m a p) h = ground arith
  Step-rank timed_out h = ground arith
  Step-rank (stop_called p) h = ground arith
  Step-rank (stop_returned p a) h = ground arith

  Moves-Winds : {s t : State} {n : ℕ} → Moves s n t → Winds s → Winds t
  Moves-Winds stay h = h
  Moves-Winds (more m st) h = Step-Winds st (Moves-Winds m h)

  Moves-rank :
      {s t : State} {n : ℕ} → Moves s n t → Winds s → n + rank t.stop t.at ≤ rank s.stop s.at
  Moves-rank stay h = omega arith
  Moves-rank (more m st) h = omega (arith, Step-rank st (Moves-Winds m h), Moves-rank m h)

  -- A step of the goroutine or of `Stop` is possible.
  abbrev pub CanGoOn : State → Type 0
  CanGoOn t = (u : State) × (st : Step ci t u) × (turns st ≡ 1)

  progress :
      (t : State) (p : Stopping) (a : At)
      → t.stop ≡ p
      → t.at ≡ a
      → Winds t
      → (t.stop ≡ stopped) ⊎ CanGoOn t
  progress t not_called a e f h = absurd (h.called e)
  progress t stopped a e f h = inl e
  progress t draining starting e f h = inr (_, ticker_made f, refl)
  progress t draining ranging e f h = inr (_, ticks_ended f h.over, refl)
  progress t draining (sending m) e f h = inr (_, drained m f e, refl)
  progress t draining finished e f h = inr (_, stop_returned e f, refl)

  rank_bound : (a : At) → rank draining a ≤ 3
  rank_bound starting = omega arith
  rank_bound ranging = omega arith
  rank_bound (sending m) = omega arith
  rank_bound finished = omega arith

  -- Once `Stop` drains the channel and the ticks are over, because `Stop` has stopped the ticker or
  -- the timeout has passed: the goroutine and `Stop` make at most three more steps, and at every moment `Stop` has
  -- returned or one of these steps is possible, so `Stop` returns.
  pub stop-Moves :
      (s t : State) (n : ℕ)
      → s.stop ≡ draining
      → s.ticks_over ≡ true
      → Moves s n t
      → (n ≤ 3) × ((t.stop ≡ stopped) ⊎ CanGoOn t)
  stop-Moves s t n d o m =
      let w : Winds s = ground arith in
      let b : n + rank t.stop t.at ≤ rank s.stop s.at = Moves-rank m w in
      let c : rank s.stop s.at ≤ 3 = rw d (rank_bound s.at) in
      (omega (arith, b, c), progress t t.stop t.at refl refl (Moves-Winds m w))
