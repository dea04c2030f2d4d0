-- ===== src/Ndt5/SingleServing/Ends.antt =====
-- `ServeOnce` of a single-serving websocket server ends
-- (ndt5/singleserving/server.go).
use ndt_server.Common.{
  ℕ, suc, ◌+◌, ◌≤◌, ◌≡◌, refl, ◌⊎◌, inl, inr, true, Option, Error, arith, Bool-cases, Result, ok,
  err, ◌&&◌, ◌∙◌,
}
use ndt_server.Ndt5.SingleServing.{
  is_none, is_failure, At, waiting, woken, checked, counting, closing, returned, WsServer, close,
  advance, can_advance, serve_http, Step, handled, closed_aside, serve_returns, derived_cancelled,
  parent_done, serve_once,
}

module _ {C : Type 0} where
  -- The accesses that `ServeOnce` has before it at most.
  abbrev pub rank : At C → ℕ
  rank waiting = 5
  rank (woken e) = 4
  rank checked = 3
  rank counting = 2
  rank (closing c e) = 1
  rank (returned c e) = 0

  -- 1 for an access of `ServeOnce`.
  abbrev pub turns : {s t : WsServer C} → Step s t → ℕ
  turns (handled r) = 0
  turns (closed_aside n e) = 0
  turns (serve_returns e a) = 0
  turns (derived_cancelled a) = 0
  turns parent_done = 0
  turns (serve_once c) = 1

  -- A run from `s` with a number of accesses of `ServeOnce` among its steps.
  pub data Moves (s : WsServer C) : ℕ → WsServer C → Type 0 where
    stay : Moves s 0 s
    more : {n : ℕ} {t u : WsServer C} → Moves s n t → (st : Step t u) → Moves s (turns st + n) u

  pub rank-advance :
      (a : At C) (s : WsServer C) → can_advance s a ≡ true → suc (rank (advance a s).at) ≤ rank a
  unfolding advance can_advance
  rank-advance waiting s h = omega arith
  rank-advance (woken e) s h = elim (Bool-cases (is_none s.new_conn && is_failure e)) [
    | inl t ↦ rw t (omega arith)
    | inr f ↦ rw f (omega arith)
  ]
  rank-advance checked s h = elim (Bool-cases (is_none s.new_conn && is_none s.new_conn_err)) [
    | inl t ↦ rw t (omega arith)
    | inr f ↦ rw f (omega arith)
  ]
  rank-advance counting s h = omega arith
  rank-advance (closing c e) s h = omega arith
  rank-advance (returned c e) s h = ground arith

  pub at-serve_http : (r : Result C) (s : WsServer C) → (serve_http r s).at ≡ s.at
  unfolding serve_http
  at-serve_http (ok c) s = refl
  at-serve_http (err e) s = refl

  rank-Step : {s t : WsServer C} (st : Step s t) → turns st + rank t.at ≤ rank s.at
  unfolding close
  rank-Step {s} (handled r) = rw (at-serve_http r s) (omega arith)
  rank-Step (closed_aside n e) = omega arith
  rank-Step (serve_returns e a) = omega arith
  rank-Step (derived_cancelled a) = omega arith
  rank-Step parent_done = omega arith
  rank-Step {s} (serve_once c) = omega (arith, rank-advance s.at s c)

  pub context_done-advance :
      (a : At C) (s : WsServer C) → (advance a s).context_done ≡ s.context_done
  unfolding advance close
  context_done-advance waiting s = refl
  context_done-advance (woken e) s = elim (Bool-cases (is_none s.new_conn && is_failure e)) [
    | inl t ↦ rw t refl
    | inr f ↦ rw f refl
  ]
  context_done-advance checked s =
      elim (Bool-cases (is_none s.new_conn && is_none s.new_conn_err)) [
        | inl t ↦ rw t refl
        | inr f ↦ rw f refl
      ]
  context_done-advance counting s = refl
  context_done-advance (closing c e) s = refl
  context_done-advance (returned c e) s = refl

  Step-context_done : {s t : WsServer C} → Step s t → s.context_done ≡ true → t.context_done ≡ true
  unfolding serve_http close
  Step-context_done (handled (ok c)) h = h
  Step-context_done (handled (err e)) h = h
  Step-context_done (closed_aside n e) h = h
  Step-context_done (serve_returns e a) h = h
  Step-context_done (derived_cancelled a) h = refl
  Step-context_done parent_done h = refl
  Step-context_done {s} (serve_once c) h = context_done-advance s.at s ∙ h

  Moves-rank : {s t : WsServer C} {n : ℕ} → Moves s n t → n + rank t.at ≤ rank s.at
  Moves-rank stay = omega arith
  Moves-rank (more m st) = omega (arith, rank-Step st, Moves-rank m)

  Moves-context_done :
      {s t : WsServer C} {n : ℕ} → Moves s n t → s.context_done ≡ true → t.context_done ≡ true
  Moves-context_done stay h = h
  Moves-context_done (more m st) h = Step-context_done st (Moves-context_done m h)

  pub rank_bound : (a : At C) → rank a ≤ 5
  rank_bound waiting = omega arith
  rank_bound (woken e) = omega arith
  rank_bound checked = omega arith
  rank_bound counting = omega arith
  rank_bound (closing c e) = omega arith
  rank_bound (returned c e) = omega arith

  -- `ServeOnce` has returned.
  abbrev pub HasReturned : At C → Type 0
  HasReturned a = (c : Option C) × (e : Option Error) × (a ≡ returned c e)

  progress :
      (s : WsServer C) (a : At C) → s.context_done ≡ true → HasReturned a ⊎ (can_advance s a ≡ true)
  unfolding can_advance
  progress s waiting h = inr h
  progress s (woken e) h = inr refl
  progress s checked h = inr refl
  progress s counting h = inr refl
  progress s (closing c e) h = inr refl
  progress s (returned c e) h = inl (c, e, refl)

  -- Once the context of `ServeOnce` is done, by its parent or because the server has stopped, whatever
  -- the other goroutines do: `ServeOnce` makes at most five accesses to what it shares with them, and at every
  -- moment it has returned or can make the next one, so it returns.
  pub serve_once-ends :
      (s t : WsServer C) (n : ℕ)
      → s.context_done ≡ true
      → Moves s n t
      → (n ≤ 5) × (HasReturned t.at ⊎ (can_advance t t.at ≡ true))
  serve_once-ends s t n h m =
      (omega (arith, Moves-rank m, rank_bound s.at), progress t t.at (Moves-context_done m h))
