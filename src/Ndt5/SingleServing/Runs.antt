-- ===== src/Ndt5/SingleServing/Runs.antt =====
-- Runs of a single-serving websocket server (ndt5/singleserving/server.go): how long they are, and what
-- they keep.
use ndt_server.Common.{
  ℕ, ◌+◌, ◌≤◌, ◌≡◌, refl, inl, inr, Bool, true, false, Bytes, Result, ok, err, arith, Bool-cases,
  ◌&&◌,
}
use ndt_server.Ndt5.SingleServing.Ends.{rank, rank-advance, at-serve_http, context_done-advance}
use ndt_server.Ndt5.SingleServing.{
  ConnectionType, is_none, is_failure, At, waiting, woken, checked, counting, closing, returned,
  Serving, accepting, cancelling, ended, WsServer, close, advance, serve_http, Step, handled,
  closed_aside, serve_returns, derived_cancelled, parent_done, serve_once, Reach, start, later,
}

abbrev pub rank_serving : Serving → ℕ
rank_serving accepting = 2
rank_serving cancelling = 1
rank_serving ended = 0

-- The goroutine that serves has ended only after it has cancelled the context.
abbrev pub IsCancelled : Serving → Bool → Type 0
IsCancelled accepting b = Unit
IsCancelled cancelling b = Unit
IsCancelled ended b = b ≡ true

IsCancelled-true : (a : Serving) → IsCancelled a true
IsCancelled-true accepting = tt
IsCancelled-true cancelling = tt
IsCancelled-true ended = refl

pub serving_bound : (a : Serving) → rank_serving a ≤ 2
serving_bound accepting = omega arith
serving_bound cancelling = omega arith
serving_bound ended = omega arith

module _ {C : Type 0} where
  -- 1 for a step of `ServeOnce` or of the goroutine that serves.
  abbrev pub counts : {s t : WsServer C} → Step s t → ℕ
  counts (handled r) = 0
  counts (closed_aside n e) = 0
  counts (serve_returns e a) = 1
  counts (derived_cancelled a) = 1
  counts parent_done = 0
  counts (serve_once c) = 1

  -- A run with a number of such steps.
  pub data Runs (s : WsServer C) : ℕ → WsServer C → Type 0 where
    stay : Runs s 0 s
    more : {n : ℕ} {t u : WsServer C} → Runs s n t → (st : Step t u) → Runs s (counts st + n) u

  abbrev pub left : WsServer C → ℕ
  left s = rank s.at + rank_serving s.serving

  serving-advance : (a : At C) (s : WsServer C) → (advance a s).serving ≡ s.serving
  unfolding advance close
  serving-advance waiting s = refl
  serving-advance (woken e) s = elim (Bool-cases (is_none s.new_conn && is_failure e)) [
    | inl t ↦ rw t refl
    | inr f ↦ rw f refl
  ]
  serving-advance checked s = elim (Bool-cases (is_none s.new_conn && is_none s.new_conn_err)) [
    | inl t ↦ rw t refl
    | inr f ↦ rw f refl
  ]
  serving-advance counting s = refl
  serving-advance (closing c e) s = refl
  serving-advance (returned c e) s = refl

  conn-advance : (a : At C) (s : WsServer C) → (advance a s).new_conn ≡ s.new_conn
  unfolding advance close
  conn-advance waiting s = refl
  conn-advance (woken e) s = elim (Bool-cases (is_none s.new_conn && is_failure e)) [
    | inl t ↦ rw t refl
    | inr f ↦ rw f refl
  ]
  conn-advance checked s = elim (Bool-cases (is_none s.new_conn && is_none s.new_conn_err)) [
    | inl t ↦ rw t refl
    | inr f ↦ rw f refl
  ]
  conn-advance counting s = refl
  conn-advance (closing c e) s = refl
  conn-advance (returned c e) s = refl

  serving-serve_http : (r : Result C) (s : WsServer C) → (serve_http r s).serving ≡ s.serving
  unfolding serve_http
  serving-serve_http (ok c) s = refl
  serving-serve_http (err e) s = refl

  Step-left : {s t : WsServer C} (st : Step s t) → counts st + left t ≤ left s
  unfolding close
  Step-left {s} (handled r) = rw (at-serve_http r s, serving-serve_http r s) (omega arith)
  Step-left (closed_aside n e) = omega arith
  Step-left {s} (serve_returns e a) = rw a (omega arith)
  Step-left {s} (derived_cancelled a) = rw a (omega arith)
  Step-left parent_done = omega arith
  Step-left {s} (serve_once c) = rw (serving-advance s.at s) (omega (arith, rank-advance s.at s c))

  pub Runs-left : {s t : WsServer C} {n : ℕ} → Runs s n t → n + left t ≤ left s
  Runs-left stay = omega arith
  Runs-left (more m st) = omega (arith, Step-left st, Runs-left m)

  -- The field keeps a connection that it has.
  conn-serve_http :
      (r : Result C) (s : WsServer C)
      → is_none s.new_conn ≡ false
      → is_none (serve_http r s).new_conn ≡ false
  unfolding serve_http
  conn-serve_http (ok c) s h = refl
  conn-serve_http (err e) s h = h

  Step-conn :
      {s t : WsServer C} → Step s t → is_none s.new_conn ≡ false → is_none t.new_conn ≡ false
  unfolding close
  Step-conn {s} (handled r) h = conn-serve_http r s h
  Step-conn (closed_aside n e) h = h
  Step-conn (serve_returns e a) h = h
  Step-conn (derived_cancelled a) h = h
  Step-conn parent_done h = h
  Step-conn {s} (serve_once c) h = rw (conn-advance s.at s) h

  pub Runs-conn :
      {s t : WsServer C} {n : ℕ}
      → Runs s n t
      → is_none s.new_conn ≡ false
      → is_none t.new_conn ≡ false
  Runs-conn stay h = h
  Runs-conn (more m st) h = Step-conn st (Runs-conn m h)

  pub Runs-Reach :
      {k : ConnectionType} {d : Bytes} {s t : WsServer C} {n : ℕ}
      → Runs s n t
      → Reach k d s
      → Reach k d t
  Runs-Reach stay r = r
  Runs-Reach (more m st) r = later (Runs-Reach m r) st

  IsCancelled-serve_http :
      (r : Result C) (s : WsServer C)
      → IsCancelled s.serving s.context_done
      → IsCancelled (serve_http r s).serving (serve_http r s).context_done
  unfolding serve_http
  IsCancelled-serve_http (ok c) s h = h
  IsCancelled-serve_http (err e) s h = h

  Step-IsCancelled :
      {s t : WsServer C}
      → Step s t
      → IsCancelled s.serving s.context_done
      → IsCancelled t.serving t.context_done
  unfolding close
  Step-IsCancelled {s} (handled r) h = IsCancelled-serve_http r s h
  Step-IsCancelled (closed_aside n e) h = h
  Step-IsCancelled (serve_returns e a) h = tt
  Step-IsCancelled (derived_cancelled a) h = refl
  Step-IsCancelled {s} parent_done h = IsCancelled-true s.serving
  Step-IsCancelled {s} (serve_once c) h = rw (serving-advance s.at s, context_done-advance s.at s) h

  pub Reach-IsCancelled :
      {k : ConnectionType} {d : Bytes} {s : WsServer C}
      → Reach k d s
      → IsCancelled s.serving s.context_done
  Reach-IsCancelled start = tt
  Reach-IsCancelled (later r st) = Step-IsCancelled st (Reach-IsCancelled r)
