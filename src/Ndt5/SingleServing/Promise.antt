-- ===== src/Ndt5/SingleServing/Promise.antt =====
-- What a single-serving websocket server promises to the tests (ndt5/singleserving/server.go, by the interface
-- of ndt5/ndt/server.go).
use ndt_server.Common.{
  ◌≡◌, refl, ◌⊎◌, inl, inr, Bool, true, false, Option, none, some, Bytes, Error, Bool-cases, ok,
  err, ◌&&◌, arith, List,
}
use ndt_server.Ndt5.SingleServing.{
  ConnectionType, is_none, is_failure, At, waiting, woken, checked, counting, closing, returned,
  WsServer, close, advance, can_advance, serve_http, Step, handled, closed_aside, serve_returns,
  derived_cancelled, parent_done, serve_once, Reach,
}
use ndt_server.Ndt5.SingleServing.Answers.{IsAnswer, IsSoundAt}
use ndt_server.Ndt5.SingleServing.Once.{Reach-Inv}

module _ (C : Type 0) where
  -- The server from outside: it is open, then closed, and in the end gives its answer.
  pub data Phase : Type 0 where
    open_server closed_server : Phase
    answered : Option C → Option Error → Phase

  abbrev pub before_answer : Bool → Phase
  before_answer true = closed_server
  before_answer false = open_server

  -- It closes once, and answers once, with a connection or an error.
  pub data Change : Phase → Phase → Type 0 where
    stops : Change open_server closed_server
    gives_conn :
        (d : Bool) (c : C) (e : Option Error) → Change (before_answer d) (answered (some c) e)
    gives_error : (d : Bool) (e : Error) → Change (before_answer d) (answered none (some e))

  abbrev pub phase_at : Bool → At C → Phase
  phase_at d waiting = before_answer d
  phase_at d (woken e) = before_answer d
  phase_at d checked = before_answer d
  phase_at d counting = before_answer d
  phase_at d (closing c e) = before_answer d
  phase_at d (returned c e) = answered c e

  -- The phase that a state of the server stands for.
  abbrev pub phase : WsServer C → Phase
  phase s = phase_at s.once_done s.at

  -- The phase stays, or changes as the promise allows.
  abbrev pub Follows : Phase → Phase → Type 0
  Follows p q = (p ≡ q) ⊎ Change p q

  before-Follows : (d : Bool) → Follows (before_answer d) closed_server
  before-Follows true = inl refl
  before-Follows false = inr stops

  close-Follows : (d : Bool) (a : At C) → Follows (phase_at d a) (phase_at true a)
  close-Follows d waiting = before-Follows d
  close-Follows d (woken e) = before-Follows d
  close-Follows d checked = before-Follows d
  close-Follows d counting = before-Follows d
  close-Follows d (closing c e) = before-Follows d
  close-Follows d (returned c e) = inl refl

  answer-Follows :
      (up : List C) (d : Bool) (c : Option C) (e : Option Error)
      → IsAnswer up c e
      → Follows (before_answer d) (answered c e)
  answer-Follows up d none none h = elim h [ ]
  answer-Follows up d none (some e) h = inr (gives_error d e)
  answer-Follows up d (some c) e h = inr (gives_conn d c e)

  advance-Follows :
      (a : At C) (s : WsServer C)
      → IsSoundAt s.upgraded s.new_conn s.new_conn_err s.once_done a
      → can_advance s a ≡ true
      → Follows (phase_at s.once_done a) (phase (advance a s))
  unfolding advance close can_advance
  advance-Follows waiting s h k = inl refl
  advance-Follows (woken e) s h k = elim (Bool-cases (is_none s.new_conn && is_failure e)) [
    | inl t ↦ rw t (inl refl)
    | inr f ↦ rw f (inl refl)
  ]
  advance-Follows checked s h k = elim (Bool-cases (is_none s.new_conn && is_none s.new_conn_err)) [
    | inl t ↦ rw t (inl refl)
    | inr f ↦ rw f (inl refl)
  ]
  advance-Follows counting s h k = inl refl
  advance-Follows (closing c e) s h k = answer-Follows s.upgraded s.once_done c e h
  advance-Follows (returned c e) s h k = ground arith

  -- The server keeps its promise: each step of its goroutines, from a state that it reaches, leaves the phase as it is, or
  -- closes the open server, or gives an answer, a connection or an error, which no later step changes.
  pub Step-Follows :
      {k : ConnectionType} {d : Bytes} {s t : WsServer C}
      → Reach k d s
      → Step s t
      → Follows (phase s) (phase t)
  unfolding serve_http close
  Step-Follows r (handled (ok c)) = inl refl
  Step-Follows r (handled (err e)) = inl refl
  Step-Follows {s = s} r (closed_aside n e) = close-Follows s.once_done s.at
  Step-Follows r (serve_returns e a) = inl refl
  Step-Follows r (derived_cancelled a) = inl refl
  Step-Follows r parent_done = inl refl
  Step-Follows {s = s} r (serve_once c) = advance-Follows s.at s (Reach-Inv r).sound_at c
