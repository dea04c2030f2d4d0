-- ===== src/Ndt7/Measurer/Sampling.antt =====
-- What the measurer gives its consumer, and that `Stop` ends it (ndt7/measurer/measurer.go).
use ndt_server.Common.{
  ℕ, ◌≡◌, refl, List, [], ◌∷◌, ◌++◌, Option, none, some, Result, ok, err, All, subst, ◌≢◌, arith,
}
use ndt_server.Ndt7.Measurer.{
  measure, sample, At, starting, ranging, sending, finished, Stopping, not_called, draining,
  stopped, State, Step, no_ticker, ticker_made, ticked, ticks_ended, consumed, drained, timed_out,
  stop_called, stop_returned, Reach, start, later,
}
use ndt_server.Ndt7.Model.{BbrInfo, TcpSample, ConnectionInfo, Measurement}
use ndt_server.Tcp.{TcpInfo}

-- Both samples, with the same time, or neither.
abbrev pub IsPaired : Option BbrInfo → Option TcpSample → Type 0
IsPaired none none = Unit
IsPaired (some b) (some t) = b.elapsed_time ≡ t.elapsed_time
IsPaired none (some t) = ⊥
IsPaired (some b) none = ⊥

module _ (ci : ConnectionInfo) where
  abbrev pub IsSample : Measurement → Type 0
  IsSample m = (m.app_info ≡ none) × (m.connection_info ≡ some ci) × IsPaired m.bbr_info m.tcp_info

  abbrev pub IsSampleAt : At → Type 0
  IsSampleAt starting = Unit
  IsSampleAt ranging = Unit
  IsSampleAt (sending m) = IsSample m
  IsSampleAt finished = Unit

  abbrev pub HasEnded : Stopping → At → Type 0
  HasEnded not_called a = Unit
  HasEnded draining a = Unit
  HasEnded stopped a = a ≡ finished

  pub record IsSound (s : State) : Type 0 where
    pub samples : All IsSample s.received
    pub in_flight : IsSampleAt s.at
    pub ended : HasEnded s.stop s.at

  sample-IsSample : (e : ℕ) (r : Result (BbrInfo × TcpInfo)) → IsSample (sample ci e r)
  unfolding sample measure
  sample-IsSample e (ok (b, t)) = (refl, refl, refl)
  sample-IsSample e (err x) = (refl, refl, tt)

  All-snoc :
      (ms : List Measurement) (m : Measurement)
      → All IsSample ms
      → IsSample m
      → All IsSample (ms ++ m ∷ [])
  All-snoc [] m h k = (k, tt)
  All-snoc (x ∷ ms) m h k = (h.0, All-snoc ms m h.1 k)

  HasEnded-running : (p : Stopping) (a b : At) → a ≢ finished → HasEnded p a → HasEnded p b
  HasEnded-running not_called a b n h = tt
  HasEnded-running draining a b n h = tt
  HasEnded-running stopped a b n h = absurd (n h)

  Step-IsSound : {s t : State} → Step ci s t → IsSound s → IsSound t
  Step-IsSound {s} (no_ticker a) h = record {
    samples = h.samples;
    in_flight = tt;
    ended = HasEnded-running s.stop s.at finished (ground (arith, a)) h.ended;
  }
  Step-IsSound {s} (ticker_made a) h = record {
    samples = h.samples;
    in_flight = tt;
    ended = HasEnded-running s.stop s.at ranging (ground (arith, a)) h.ended;
  }
  Step-IsSound {s} (ticked e r a o) h = record {
    samples = h.samples;
    in_flight = sample-IsSample e r;
    ended = HasEnded-running s.stop s.at _ (ground (arith, a)) h.ended;
  }
  Step-IsSound {s} (ticks_ended a o) h = record {
    samples = h.samples;
    in_flight = tt;
    ended = HasEnded-running s.stop s.at finished (ground (arith, a)) h.ended;
  }
  Step-IsSound {s} (consumed m a p) h = record {
    samples = All-snoc s.received m h.samples (subst IsSampleAt a h.in_flight);
    in_flight = tt;
    ended = HasEnded-running s.stop s.at ranging (ground (arith, a)) h.ended;
  }
  Step-IsSound {s} (drained m a p) h = record {
    samples = h.samples;
    in_flight = tt;
    ended = HasEnded-running s.stop s.at ranging (ground (arith, a)) h.ended;
  }
  Step-IsSound {s} timed_out h = record {
    samples = h.samples;
    in_flight = h.in_flight;
    ended = h.ended;
  }
  Step-IsSound {s} (stop_called p) h = record {
    samples = h.samples;
    in_flight = h.in_flight;
    ended = tt;
  }
  Step-IsSound {s} (stop_returned p a) h = record {
    samples = h.samples;
    in_flight = h.in_flight;
    ended = a;
  }

  -- In every state of the measurer: each measurement that the consumer has received, and the one that is being sent,
  -- names the connection, has no application info, and has both the BBR and the TCP
  -- sample, with the same time, or neither; and when `Stop` has returned, the sampling goroutine has ended.
  pub Reach-IsSound : {s : State} → Reach ci s → IsSound s
  Reach-IsSound start = record { samples = tt; in_flight = tt; ended = tt }
  Reach-IsSound (later r st) = Step-IsSound st (Reach-IsSound r)
