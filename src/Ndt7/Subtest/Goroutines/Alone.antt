-- ===== src/Ndt7/Subtest/Goroutines/Alone.antt =====
-- However the rounds of sender and receiver interleave, each does what it does alone.
use ndt_server.Common.{◌≡◌, refl, ap, ◌∙◌, sym, subst, List, [], ◌∷◌, ◌++◌, Option, Bytes, Error}
use ndt_server.Ndt7.Loop.{continue, return, left_by, map_step, left_by-map_step}
use ndt_server.Ndt7.Loop
use ndt_server.Ndt7.Model.{Measurement, ArchivalData}
use ndt_server.Ndt7.Receiver
use ndt_server.Ndt7.Receiver.Rounds as Receiving
use ndt_server.Ndt7.Receiver.{ReceiverKind, Arrival, expired}
use ndt_server.Ndt7.Subtest.Goroutines.Senders.{IsSeparate}
use ndt_server.Ndt7.Subtest.Goroutines.{
  Place, testing, place_after, Reading, unstarted, looping, cancelling, completed, At, preparing,
  sending, waiting, returned, Sender, State, sender_view, receiver_view, after_sender,
  after_receiver, Step, sender_begins, sender_goes_on, receiver_begins, receiver_expires,
  receiver_tests, receiver_goes_on, cancels, context_ends, returns, Reach, begin, later,
}
use ndt_server.Ndt7.Subtest.Order.{
  with_client_of, beside, receiver_step-beside, receiver_start-beside, receive-beside,
}
use ndt_server.Ndt7.Subtest.{error_of, receive}

module _ (decode : Bytes → Option Measurement) (k : ReceiverKind) (deadline : Option Error)
    {T S : Type 0} (x : Sender T S) (law : IsSeparate x) (d : ArchivalData) where
  -- The receiver alone, by what it has met.
  abbrev received_alone : List Arrival → Loop.Step Receiver.State
  received_alone arrivals = Receiver.start decode k deadline arrivals d

  -- The sender's state with the client's measurements of `c`.
  abbrev own : ArchivalData → S → S
  own c u = x.with_data (with_client_of c (x.data_of u)) u

  -- The sender alone is where it is, on the data with the client's measurements that there were.
  abbrev IsSent : List T → ArchivalData → S → At → Type 0
  IsSent ts a v preparing = (ts ≡ []) × (with_client_of d a ≡ d)
  IsSent ts a v sending = x.start ts d ≡ continue (x.with_data (with_client_of d a) v)
  IsSent ts a v (waiting e) = x.start ts d ≡ return e (x.with_data (with_client_of d a) v)
  IsSent ts a v (returned e) = x.start ts d ≡ return e (x.with_data (with_client_of d a) v)

  abbrev IsReceived : List Arrival → Receiver.State → Reading → Type 0
  IsReceived ars u unstarted = (ars ≡ []) × (u.archival.client_measurements ≡ d.client_measurements)
  IsReceived ars u (looping q) = received_alone ars ≡ continue (beside d u)
  IsReceived ars u cancelling = left_by (received_alone ars) ≡ beside d u
  IsReceived ars u completed = left_by (received_alone ars) ≡ beside d u

  pub record Inv (s : State T S) : Type 0 where
    pub sent : IsSent s.turns s.archival s.sender s.at
    pub received : IsReceived s.arrivals (receiver_view s) s.reading

  -- Each depends only on the part of the data that is its own.
  IsSent-other :
      (ts : List T) (v : S) (a a' : ArchivalData) (q : At)
      → with_client_of d a' ≡ with_client_of d a
      → IsSent ts a v q
      → IsSent ts a' v q
  IsSent-other ts v a a' preparing e (h, k) = (h, e ∙ k)
  IsSent-other ts v a a' sending e h = h ∙ ap (λ b. continue (x.with_data b v)) (sym e)
  IsSent-other ts v a a' (waiting z) e h = h ∙ ap (λ b. return z (x.with_data b v)) (sym e)
  IsSent-other ts v a a' (returned z) e h = h ∙ ap (λ b. return z (x.with_data b v)) (sym e)

  IsReceived-other :
      (ars : List Arrival) (u : Receiver.State) (a a' : ArchivalData) (q : Reading)
      → a'.client_measurements ≡ a.client_measurements
      → IsReceived ars (record u { archival = a }) q
      → IsReceived ars (record u { archival = a' }) q
  IsReceived-other ars u a a' unstarted e (h, k) = (h, e ∙ k)
  IsReceived-other ars u a a' (looping q) e h =
      h ∙ ap (λ c. continue (record u { archival = record d { client_measurements = c } })) (sym e)
  IsReceived-other ars u a a' cancelling e h =
      h ∙ ap (λ c. record u { archival = record d { client_measurements = c } }) (sym e)
  IsReceived-other ars u a a' completed e h =
      h ∙ ap (λ c. record u { archival = record d { client_measurements = c } }) (sym e)

  -- What a sender's round gives.
  IsSent-after :
      (ts : List T) (r : Loop.Step S) (s : State T S)
      → x.start ts d ≡ map_step (own d) r
      → let t = after_sender x r s in IsSent ts t.archival t.sender t.at
  IsSent-after ts (continue u) s h = h
  IsSent-after ts (return e u) s h = h

  IsReceived-after :
      (ars : List Arrival) (q : Place) (r : Loop.Step Receiver.State) (s : State T S)
      → received_alone ars ≡ map_step (beside d) r
      → IsReceived ars (receiver_view (after_receiver q r s)) (after_receiver q r s).reading
  IsReceived-after ars q (continue u) s h = h
  IsReceived-after ars q (return e u) s h = ap left_by h

  -- A sender's round leaves the client's measurements.
  client_kept :
      (r r' : Loop.Step S) (a : ArchivalData)
      → r ≡ map_step (own a) r'
      → (x.data_of (left_by r)).client_measurements ≡ a.client_measurements
  client_kept r r' a h =
      let u = left_by r' in
      ap (λ r. (x.data_of (left_by r)).client_measurements) h
      ∙ ap (λ u. (x.data_of u).client_measurements) (left_by-map_step (own a) r')
      ∙ ap (λ (b : ArchivalData). b.client_measurements)
          (law.data_of-with_data (with_client_of a (x.data_of u)) u)

  -- A receiver's round leaves everything else.
  rest_kept :
      (r r' : Loop.Step Receiver.State) (a : ArchivalData)
      → r ≡ map_step (beside a) r'
      → with_client_of d (left_by r).archival ≡ with_client_of d a
  rest_kept r r' a h =
      ap (λ (r : Loop.Step Receiver.State). with_client_of d (left_by r).archival) h
      ∙ ap (λ (u : Receiver.State). with_client_of d u.archival) (left_by-map_step (beside a) r')

  -- A receiver's round.
  round_sent :
      (s : State T S) (a : Arrival)
      → IsSent s.turns s.archival s.sender s.at
      → IsSent s.turns (left_by (Receiver.step decode k a (receiver_view s))).archival s.sender s.at
  round_sent s a h =
      let r = Receiver.step decode k a (receiver_view s) in
      IsSent-other s.turns s.sender s.archival (left_by r).archival s.at
        (rest_kept r r s.archival (receiver_step-beside decode k s.archival a (receiver_view s))) h

  round_received :
      (s : State T S) (a : Arrival) (q : Place)
      → received_alone s.arrivals ≡ continue (beside d (receiver_view s))
      → let t = after_receiver q (Receiver.step decode k a (receiver_view s)) s in
        IsReceived (s.arrivals ++ a ∷ []) (receiver_view t) t.reading
  round_received s a q h =
      IsReceived-after (s.arrivals ++ a ∷ []) q (Receiver.step decode k a (receiver_view s)) s (
        Receiving.start-snoc decode k deadline s.arrivals a d (beside d (receiver_view s)) h
        ∙ receiver_step-beside decode k d a (receiver_view s))

  Step-sent :
      {s t : State T S}
      → Step decode k deadline x s t
      → Inv s
      → IsSent t.turns t.archival t.sender t.at
  Step-sent {s} (sender_begins h) i =
      let (none_yet, same) = rw h at i.sent in
      let t = after_sender x (x.start [] s.archival) s in
      subst (λ ts. IsSent ts t.archival t.sender t.at) (sym none_yet)
        (IsSent-after [] (x.start [] s.archival) s
          (ap (x.start []) (sym same) ∙ law.start_beside d s.archival []))
  Step-sent {s} (sender_goes_on t h) i =
      let v = x.with_data (with_client_of d s.archival) s.sender in
      IsSent-after (s.turns ++ t ∷ []) (x.round t (sender_view x s)) s
        (law.one_more s.turns t d v (rw h at i.sent) ∙ law.round_beside d s.archival t s.sender)
  Step-sent {s} (receiver_begins h) i =
      let r = Receiver.start decode k deadline [] s.archival in
      IsSent-other s.turns s.sender s.archival (left_by r).archival s.at
        (rest_kept r r s.archival
          (receiver_start-beside decode k deadline [] s.archival s.archival))
        i.sent
  Step-sent {s} (receiver_expires h) i = round_sent s expired i.sent
  Step-sent {s} (receiver_tests h c) i = i.sent
  Step-sent {s} (receiver_goes_on a h e) i = round_sent s a i.sent
  Step-sent (cancels h) i = i.sent
  Step-sent context_ends i = i.sent
  Step-sent (returns e h z) i = rw h at i.sent

  Step-received :
      {s t : State T S}
      → Step decode k deadline x s t
      → Inv s
      → IsReceived t.arrivals (receiver_view t) t.reading
  Step-received {s} (sender_begins h) i =
      let r = x.start [] s.archival in
      IsReceived-other s.arrivals s.receiver s.archival (x.data_of (left_by r)) s.reading
        (client_kept r r s.archival (law.start_beside s.archival s.archival [])) i.received
  Step-received {s} (sender_goes_on t h) i =
      let r = x.round t (sender_view x s) in
      IsReceived-other s.arrivals s.receiver s.archival (x.data_of (left_by r)) s.reading
        (client_kept r r s.archival (law.round_beside s.archival s.archival t s.sender)) i.received
  Step-received {s} (receiver_begins h) i =
      let (none_yet, same) = rw h at i.received in
      let go = λ (a : ArchivalData). Receiver.start decode k deadline [] a in
      let t = after_receiver testing (go s.archival) s in
      subst (λ ars. IsReceived ars (receiver_view t) t.reading) (sym none_yet)
        (IsReceived-after [] testing (go s.archival) s (
          ap (λ c. go (record d { client_measurements = c })) (sym same)
          ∙ receiver_start-beside decode k deadline [] s.archival d))
  Step-received {s} (receiver_expires h) i = round_received s expired testing (rw h at i.received)
  Step-received {s} (receiver_tests h c) i = rw h at i.received
  Step-received {s} (receiver_goes_on a h e) i =
      round_received s a (place_after a) (rw h at i.received)
  Step-received (cancels h) i = rw h at i.received
  Step-received context_ends i = i.received
  Step-received (returns e h z) i = i.received

  Reach-Inv : {s : State T S} → Reach decode k deadline x d s → Inv s
  Reach-Inv (begin b) = record { sent = (refl, refl); received = (refl, refl) }
  Reach-Inv (later r st) = record {
    sent = Step-sent st (Reach-Inv r);
    received = Step-received st (Reach-Inv r);
  }

  -- `Do` with the receiver after the sender.
  abbrev pub do_in_turn : List T → List Arrival → Option Error × ArchivalData
  do_in_turn ts arrivals =
      let r = x.start ts d in
      (error_of r, receive decode k deadline arrivals (x.data_of (left_by r)))

  -- When `Do` has returned and the receiver has completed, the error and the data are those of the receiver after
  -- the sender.
  pub Reach-alone :
      (s : State T S) (e : Option Error)
      → Reach decode k deadline x d s
      → s.at ≡ returned e
      → s.reading ≡ completed
      → do_in_turn s.turns s.arrivals ≡ (e, s.archival)
  Reach-alone s e r h q =
      let i = Reach-Inv r in
      let a = with_client_of d s.archival in
      let sent : x.start s.turns d ≡ return e (x.with_data a s.sender) = rw h at i.sent in
      let got : left_by (received_alone s.arrivals) ≡ beside d (receiver_view s) =
        rw q at i.received in
      rw (sent, law.data_of-with_data a s.sender)
        (ap (λ a. (e, a))
          (receive-beside decode k deadline s.arrivals d s.archival
            ∙ ap (λ (u : Receiver.State). with_client_of u.archival s.archival) got))
