-- ===== src/Ndt5/Tests/ServerTests.antt =====
-- Runs of the servers of ndt5: the labels of their metrics, forwarding, and the servers of the tests.
use ndt_server.Common.{
  ◌≡◌, refl, ◌⊎◌, ◌≤◌, [], ◌∷◌, ◌++◌, none, some, codes, ok, ℤ, whole_numbers, All, Error,
}
use ndt_server.Ndt5.C2s.{TestConn}
use ndt_server.Ndt5.Control.Labels.{handle_control_channel-AreLabelled}
use ndt_server.Ndt5.Control.{handle_control_channel}
use ndt_server.Ndt5.Labels.{all_updates, IsLabelled}
use ndt_server.Ndt5.Plain.Forwarding.Ends.{
  Run, begin, more, IsOver, IsOwed, IsForwarding, forward-Ends,
}
use ndt_server.Ndt5.Plain.Forwarding.Refines.{as_plain, Reach-forward}
use ndt_server.Ndt5.Plain.Forwarding.{
  State, over, input_copied, output_copied, waited, parent_ends, context_done, checked, closes_fwd,
  returns, Reach, start, later,
}
use ndt_server.Ndt5.Plain.{ContextEnd, deadline_exceeded, forward}
use ndt_server.Ndt5.Plain
use ndt_server.Ndt5.S2c.{fail, no_record, after_serve}
use ndt_server.Ndt5.Servers.Served.{to_served, after_serve-served}
use ndt_server.Ndt5.SingleServing.Answers.{IsIn}
use ndt_server.Ndt5.SingleServing.{
  ws, wss, WsServer, start_counted, advance, can_advance, close, serve_http, handled, parent_done,
  serve_once,
}
use ndt_server.Ndt5.SingleServing
use ndt_server.Ndt5.Tests.{no_fields, server, download_session, test_conn}
use ndt_server.Protocol.Messager.{tlv_messager}
use ndt_server.Protocol.Tests.{codec, over_tcp}

-- The client asks for the c2s test and the status.
handle_control_channel-AreLabelled_example : All (IsLabelled (codes "ndt5+plain") (codes "false")) (
    all_updates
      (codes "ndt5+plain")
      (codes "false")
      (handle_control_channel whole_numbers codec no_fields (λ b. b) (λ p e. p) server over_tcp))
handle_control_channel-AreLabelled_example =
    handle_control_channel-AreLabelled whole_numbers codec no_fields (λ b. b) (λ p e. p)
      (codes "ndt5+plain") (codes "false") server over_tcp

-- The deadline passes while both sides are open.
abbrev timed_out : (s : State) × Reach s
timed_out = (
  _,
  later
      (later
        (later
          (later (later start (parent_ends deadline_exceeded refl))
            (context_done deadline_exceeded refl refl))
          (checked refl))
        (closes_fwd refl))
      (returns refl),
)

Reach-forward_example :
    (e : ContextEnd) × (timed_out.0.context ≡ over e)
    × (Plain.forwarded [] ∷ as_plain {F = ℤ} timed_out.0.effects
        ≡ forward [] e none ++ Plain.conn_closed ∷ [])
Reach-forward_example = Reach-forward ℤ [] timed_out.1 refl

-- The client has closed its side, and the websocket server its own.
abbrev both_closed : (s : State) × Run 3 s
both_closed =
    (_, more (more (more begin (input_copied refl)) (output_copied refl)) (waited refl refl refl))

forward-Ends_example :
    (3 ≤ 8) × (IsOver both_closed.0 ⊎ (IsOwed both_closed.0 ⊎ IsForwarding both_closed.0))
forward-Ends_example = forward-Ends both_closed.1

-- The client of a download test connects, and `ServeOnce` returns when its context has ended.
abbrev served : (s : WsServer TestConn) × SingleServing.Reach ws (codes "s2c") s
unfolding serve_http close advance can_advance
served = (
  _,
  SingleServing.later
      (SingleServing.later
        (SingleServing.later
          (SingleServing.later
            (SingleServing.later
              (SingleServing.later
                (SingleServing.later SingleServing.start (handled (ok test_conn))) parent_done)
              (serve_once refl))
            (serve_once refl))
          (serve_once refl))
        (serve_once refl))
      (serve_once refl),
)

after_serve-served_example :
    ((x : Error) × (none ≡ some x)
      × (after_serve whole_numbers codec no_fields tlv_messager download_session over_tcp
            (to_served (some test_conn) none)
          ≡ fail whole_numbers codec no_fields "ServeOnce" x
              (no_record whole_numbers codec no_fields)
              over_tcp
              []))
    ⊎ ((u : TestConn) × IsIn u served.0.upgraded
        × (after_serve whole_numbers codec no_fields tlv_messager download_session over_tcp
              (to_served (some test_conn) none)
            ≡ after_serve whole_numbers codec no_fields tlv_messager download_session over_tcp
                (ok (some u))))
unfolding serve_http close advance can_advance
after_serve-served_example =
    after_serve-served whole_numbers codec no_fields (some test_conn) none tlv_messager
      download_session over_tcp served.1 refl
