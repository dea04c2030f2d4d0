-- ===== src/Ndt5/SingleServing/Connected.antt =====
-- A client that connects to a single-serving websocket server makes `ServeOnce` return
-- (ndt5/singleserving/server.go).
use ndt_server.Common.{
  ℕ, zero, suc, ◌≤◌, ◌<◌, ◌≡◌, refl, ◌⊎◌, inl, inr, Bool, true, false, Option, none, some, Bytes,
  arith, Bool-cases,
}
use ndt_server.Ndt5.SingleServing.Answers.{IsStopping}
use ndt_server.Ndt5.SingleServing.Ends.{HasReturned, rank_bound}
use ndt_server.Ndt5.SingleServing.Once.{Reach-Inv}
use ndt_server.Ndt5.SingleServing.Runs.{
  Runs, IsCancelled, serving_bound, Runs-left, Runs-conn, Runs-Reach, Reach-IsCancelled,
}
use ndt_server.Ndt5.SingleServing.{
  ConnectionType, is_none, At, waiting, woken, checked, counting, closing, returned, Serving,
  accepting, cancelling, ended, WsServer, can_advance, Step, handled, closed_aside, serve_returns,
  derived_cancelled, parent_done, serve_once, Reach, server_closed,
}

positive : (n : ℕ) → 0 < n → (m : ℕ) × (n ≡ suc m)
positive zero h = ground arith
positive (suc m) h = (m, refl)

module _ {C : Type 0} where
  -- A step that nobody outside has to make: `serve` returns only when the server has been closed.
  abbrev pub is_owed : {s t : WsServer C} → Step s t → Bool
  is_owed (handled r) = false
  is_owed (closed_aside n e) = true
  is_owed {s} (serve_returns e a) = s.once_done
  is_owed (derived_cancelled a) = true
  is_owed parent_done = false
  is_owed (serve_once c) = true

  abbrev pub IsOwed : WsServer C → Type 0
  IsOwed s = (t : WsServer C) × (st : Step s t) × (is_owed st ≡ true)

  close_pending :
      (c : Option C) (b : Bool) (n : ℕ) → is_none c ≡ false → b ≡ false → IsStopping c b n → 0 < n
  close_pending none b n h o k = ground arith
  close_pending (some c) true n h o k = ground arith
  close_pending (some c) false n h o k = k

  -- Before the context is done, the server is being closed, and the goroutine that serves ends.
  live_progress :
      (s : WsServer C) (a : Serving)
      → s.serving ≡ a
      → s.context_done ≡ false
      → is_none s.new_conn ≡ false
      → IsStopping s.new_conn s.once_done s.closers
      → IsCancelled a s.context_done
      → IsOwed s
  live_progress s accepting e f h k c = elim (Bool-cases s.once_done) [
    | inl t ↦ (_, serve_returns server_closed e, t)
    | inr o ↦
        let (m, q) = positive s.closers (close_pending s.new_conn s.once_done s.closers h o k) in
        (_, closed_aside m q, refl)
  ]
  live_progress s cancelling e f h k c = (_, derived_cancelled e, refl)
  live_progress s ended e f h k c = ground arith

  progress :
      (s : WsServer C) (a : At C)
      → s.at ≡ a
      → is_none s.new_conn ≡ false
      → IsStopping s.new_conn s.once_done s.closers
      → IsCancelled s.serving s.context_done
      → HasReturned a ⊎ IsOwed s
  unfolding can_advance
  progress s waiting e h k c = elim (Bool-cases s.context_done) [
    | inl t ↦ let can : can_advance s s.at ≡ true = ground arith in inr (_, serve_once can, refl)
    | inr f ↦ inr (live_progress s s.serving refl f h k c)
  ]
  progress s (woken x) e h k c =
      let can : can_advance s s.at ≡ true = ground arith in inr (_, serve_once can, refl)
  progress s checked e h k c =
      let can : can_advance s s.at ≡ true = ground arith in inr (_, serve_once can, refl)
  progress s counting e h k c =
      let can : can_advance s s.at ≡ true = ground arith in inr (_, serve_once can, refl)
  progress s (closing x y) e h k c =
      let can : can_advance s s.at ≡ true = ground arith in inr (_, serve_once can, refl)
  progress s (returned x y) e h k c = inl (x, y, refl)

  -- Once a handler has given its connection to the server, whatever other clients do and whether or not the parent
  -- context ends: `ServeOnce` and the goroutine that serves make at most seven steps, and at every moment `ServeOnce`
  -- has returned, or one of them can go on, where `serve` returns only when the server has been closed, or a
  -- close that a handler has started is still to come. So `ServeOnce` returns.
  pub connected-Ends :
      (k : ConnectionType) (d : Bytes) (s t : WsServer C) (n : ℕ)
      → Reach k d s
      → is_none s.new_conn ≡ false
      → Runs s n t
      → (n ≤ 7) × (HasReturned t.at ⊎ IsOwed t)
  connected-Ends k d s t n r h m =
      let r' = Runs-Reach m r in
      (
        omega (arith, Runs-left m, rank_bound s.at, serving_bound s.serving),
        progress t t.at refl (Runs-conn m h) (Reach-Inv r').stopping (Reach-IsCancelled r'),
      )
