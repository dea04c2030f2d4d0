-- ===== src/Ndt7/Receiver/Rounds.antt =====
-- The receiver by its rounds: one more arrival is one more round.
use ndt_server.Common.{◌≡◌, List, [], ◌∷◌, ◌++◌, Option, none, some, Bytes, Error, arith}
use ndt_server.Ndt7.Loop.{continue, run-snoc}
use ndt_server.Ndt7.Model.{Measurement, ArchivalData}
use ndt_server.Ndt7.Receiver.{ReceiverKind, Arrival, State, step, start}

pub start-snoc :
    (decode : Bytes → Option Measurement) (k : ReceiverKind) (e : Option Error)
    (arrivals : List Arrival) (a : Arrival) (d : ArchivalData) (u : State)
    → start decode k e arrivals d ≡ continue u
    → start decode k e (arrivals ++ a ∷ []) d ≡ step decode k a u
unfolding start
start-snoc decode k (some e) arrivals a d u h = ground arith
start-snoc decode k none arrivals a d u h =
    run-snoc (step decode k) arrivals a (record { archival = d; receiver_errors = [] }) u h
