-- ===== src/Ndt5/SingleServing/Once.antt =====
-- What holds of a single-serving websocket server in every state that its goroutines reach
-- (ndt5/singleserving/server.go).
use ndt_server.Common.{
  ℕ, ◌≡◌, refl, inl, inr, true, Bytes, Result, ok, err, ◌∙◌, Bool-cases, append-nil, subst, ◌&&◌,
}
use ndt_server.Ndt5.SingleServing.{
  ConnectionType, is_none, is_failure, At, waiting, woken, checked, counting, closing, returned,
  WsServer, close, advance, serve_http, Step, handled, closed_aside, serve_returns,
  derived_cancelled, parent_done, serve_once, Reach, start, later,
}
use ndt_server.Ndt5.SingleServing.Answers.{
  stops, stops-append, stops_of, IsUpgraded, IsStopping, IsSoundAt, IsAnswer-more, IsAnswer-error,
  IsStopping-done, IsStopping-pending, IsAnswer-checked,
}

module _ {C : Type 0} where
  pub record Inv (s : WsServer C) : Type 0 where
    pub once : stops s.effects ≡ stops_of s.kind s.once_done
    pub from_client : IsUpgraded s.upgraded s.new_conn
    pub stopping : IsStopping s.new_conn s.once_done s.closers
    pub sound_at : IsSoundAt s.upgraded s.new_conn s.new_conn_err s.once_done s.at

  close-stops :
      (s : WsServer C)
      → stops s.effects ≡ stops_of s.kind s.once_done
      → stops (close s).effects ≡ stops_of s.kind true
  unfolding close
  close-stops s h = elim (Bool-cases s.once_done) [
    | inl t ↦ rw (t, append-nil s.effects) (h ∙ rw t refl)
    | inr f ↦ rw f (stops-append s.effects _ ∙ rw (h, f) (unfold stops in refl))
  ]

  IsSoundAt-close :
      (s : WsServer C) (a : At C)
      → IsSoundAt s.upgraded s.new_conn s.new_conn_err s.once_done a
      → IsSoundAt s.upgraded s.new_conn s.new_conn_err true a
  IsSoundAt-close s waiting h = tt
  IsSoundAt-close s (woken e) h = tt
  IsSoundAt-close s checked h = tt
  IsSoundAt-close s counting h = h
  IsSoundAt-close s (closing c e) h = h
  IsSoundAt-close s (returned c e) (h, d) = (h, refl)

  close-Inv : (s : WsServer C) → Inv s → (n : ℕ) → Inv (close (record s { closers = n }))
  unfolding close
  close-Inv s h n = record {
    once = close-stops (record s { closers = n }) h.once;
    from_client = h.from_client;
    stopping = IsStopping-done s.new_conn n;
    sound_at = IsSoundAt-close (record s { closers = n }) s.at h.sound_at;
  }

  IsSoundAt-handled :
      (r : Result C) (s : WsServer C) (a : At C)
      → IsUpgraded s.upgraded s.new_conn
      → IsSoundAt s.upgraded s.new_conn s.new_conn_err s.once_done a
      → IsSoundAt
          (serve_http r s).upgraded
          (serve_http r s).new_conn
          (serve_http r s).new_conn_err
          (serve_http r s).once_done
          a
  unfolding serve_http
  IsSoundAt-handled r s waiting u h = tt
  IsSoundAt-handled r s (woken e) u h = tt
  IsSoundAt-handled r s checked u h = tt
  IsSoundAt-handled (ok c) s counting u h = inl refl
  IsSoundAt-handled (err e) s counting u h = IsAnswer-error s.upgraded s.new_conn e u
  IsSoundAt-handled (ok x) s (closing c e) u h = IsAnswer-more x s.upgraded c e h
  IsSoundAt-handled (err x) s (closing c e) u h = h
  IsSoundAt-handled (ok x) s (returned c e) u (h, d) = (IsAnswer-more x s.upgraded c e h, d)
  IsSoundAt-handled (err x) s (returned c e) u h = h

  handled-Inv : (r : Result C) (s : WsServer C) → Inv s → Inv (serve_http r s)
  unfolding serve_http
  handled-Inv (ok c) s h = record {
    once = h.once;
    from_client = inl refl;
    stopping = IsStopping-pending c s.once_done s.closers;
    sound_at = IsSoundAt-handled (ok c) s s.at h.from_client h.sound_at;
  }
  handled-Inv (err e) s h = record {
    once = h.once;
    from_client = h.from_client;
    stopping = h.stopping;
    sound_at = IsSoundAt-handled (err e) s s.at h.from_client h.sound_at;
  }

  moved-Inv :
      (s : WsServer C) (a : At C)
      → Inv s
      → IsSoundAt s.upgraded s.new_conn s.new_conn_err s.once_done a
      → Inv (record s { at = a })
  moved-Inv s a h k = record {
    once = h.once;
    from_client = h.from_client;
    stopping = h.stopping;
    sound_at = k;
  }

  advance-Inv : (a : At C) (s : WsServer C) → s.at ≡ a → Inv s → Inv (advance a s)
  unfolding advance
  advance-Inv waiting s i h = moved-Inv s (woken s.close_err) h tt
  advance-Inv (woken e) s i h = elim (Bool-cases (is_none s.new_conn && is_failure e)) [
    | inl t ↦ rw t (moved-Inv s _ h tt)
    | inr f ↦ rw f (moved-Inv s checked h tt)
  ]
  advance-Inv checked s i h = elim (Bool-cases (is_none s.new_conn && is_none s.new_conn_err)) [
    | inl t ↦ rw t (moved-Inv s _ h tt)
    | inr f ↦ rw f (
        moved-Inv s counting h
          (IsAnswer-checked s.upgraded s.new_conn s.new_conn_err h.from_client f))
  ]
  advance-Inv counting s i h = record {
    once = stops-append s.effects _ ∙ rw h.once (unfold stops in append-nil _);
    from_client = h.from_client;
    stopping = h.stopping;
    sound_at = subst (IsSoundAt s.upgraded s.new_conn s.new_conn_err s.once_done) i h.sound_at;
  }
  advance-Inv (closing c e) s i h = record {
    once = close-stops s h.once;
    from_client = h.from_client;
    stopping = IsStopping-done s.new_conn s.closers;
    sound_at =
        (subst (IsSoundAt s.upgraded s.new_conn s.new_conn_err s.once_done) i h.sound_at, refl);
  }
  advance-Inv (returned c e) s i h = h

  Step-Inv : {s t : WsServer C} → Step s t → Inv s → Inv t
  Step-Inv {s} (handled r) h = handled-Inv r s h
  Step-Inv {s} (closed_aside n e) h = close-Inv s h n
  Step-Inv {s} (serve_returns e a) h = record {
    once = h.once;
    from_client = h.from_client;
    stopping = h.stopping;
    sound_at = h.sound_at;
  }
  Step-Inv (derived_cancelled a) h = record {
    once = h.once;
    from_client = h.from_client;
    stopping = h.stopping;
    sound_at = h.sound_at;
  }
  Step-Inv parent_done h = record {
    once = h.once;
    from_client = h.from_client;
    stopping = h.stopping;
    sound_at = h.sound_at;
  }
  Step-Inv {s} (serve_once c) h = advance-Inv s.at s refl h

  -- In every state that a started server reaches, however its goroutines interleave: the stop is
  -- counted and the listener and the HTTP server are closed, in this order, once if `Close` has run and
  -- else never; the connection in the field is one that a handler has upgraded, and with it
  -- `Close` has run or is pending; and when `ServeOnce` has returned, `Close` has run, and what it
  -- gave is an upgraded connection or an error, never nil and nil.
  pub Reach-Inv : {k : ConnectionType} {d : Bytes} {s : WsServer C} → Reach k d s → Inv s
  unfolding stops
  Reach-Inv start = record { once = refl; from_client = tt; stopping = tt; sound_at = tt }
  Reach-Inv (later r st) = Step-Inv st (Reach-Inv r)
