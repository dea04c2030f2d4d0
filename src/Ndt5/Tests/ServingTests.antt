-- ===== src/Ndt5/Tests/ServingTests.antt =====
-- Runs of the logins, the plain server and the single-serving servers of ndt5.
use ndt_server.Common.{
  ℕ, ◌≡◌, ◌≢◌, ◌⊎◌, ◌≤◌, ◌<◌, refl, true, [], ◌∷◌, ◌++◌, none, List, codes, ok, err, pos,
  whole_numbers, arith, itoa, length,
}
use ndt_server.Ndt5.Login.Clients.{arrived, json_body, plain_login_answers}
use ndt_server.Ndt5.Login.{logged, plain_login}
use ndt_server.Ndt5.Plain.Sniff.{items, byte, proxied, served, sniff_then_handle_cases}
use ndt_server.Ndt5.Plain.{Accepted, deadline_exceeded, sniff_then_handle}
use ndt_server.Ndt5.SingleServing.Connected
use ndt_server.Ndt5.SingleServing.Runs
use ndt_server.Ndt5.SingleServing.Ends.{Moves, stay, more, HasReturned, serve_once-ends}
use ndt_server.Ndt5.SingleServing.Once.{Inv, Reach-Inv}
use ndt_server.Ndt5.SingleServing.Promise.{Follows, phase, Step-Follows}
use ndt_server.Ndt5.SingleServing.{
  wss, WsServer, advance, can_advance, close, serve_http, server_closed, handled, closed_aside,
  serve_returns, derived_cancelled, serve_once, Reach, start, later,
}
use ndt_server.Protocol.Conn.{Chunk, arrives, stream}
use ndt_server.Protocol.Kind.{json, tlv, msg_login, msg_extended_login}
use ndt_server.Ndt5.Tests.{no_fields, server}
use ndt_server.Protocol.Tests.{codec, over_tcp}
use ndt_server.Protocol.Tlv.{tlv_frame}

-- A client has connected, the server is closed, and `ServeOnce` goes on.
abbrev woken_up : (s : WsServer ℕ) × Reach wss (codes "c2s") s
unfolding serve_http close
woken_up = (
  _,
  later
      (later
        (later (later (later start (handled (err (codes "bad handshake")))) (handled (ok 7)))
          (closed_aside 0 refl))
        (serve_returns server_closed refl))
      (derived_cancelled refl),
)

-- The results of `ServeOnce` have been read.
abbrev has_read : (s : WsServer ℕ) × Reach wss (codes "c2s") s
unfolding serve_http close advance can_advance
has_read = (
  _,
  later (later (later (later woken_up.1 (serve_once refl)) (serve_once refl)) (serve_once refl))
      (serve_once refl),
)

Reach-Inv_example : Inv has_read.0
Reach-Inv_example = Reach-Inv has_read.1

Step-Follows_example : Follows ℕ (phase ℕ has_read.0) (phase ℕ (advance has_read.0.at has_read.0))
unfolding serve_http close advance can_advance
Step-Follows_example = Step-Follows ℕ has_read.1 (serve_once refl)

abbrev to_the_end : (t : WsServer ℕ) × Moves woken_up.0 5 t
unfolding serve_http close advance can_advance
to_the_end = (
  _,
  more
      (more (more (more (more stay (serve_once refl)) (serve_once refl)) (serve_once refl))
        (serve_once refl))
      (serve_once refl),
)

serve_once-ends_example :
    (5 ≤ 5) × (HasReturned to_the_end.0.at ⊎ (can_advance to_the_end.0 to_the_end.0.at ≡ true))
unfolding serve_http close
serve_once-ends_example = serve_once-ends woken_up.0 to_the_end.0 5 refl to_the_end.1

-- A client has connected, then the server is closed and its context cancelled.
abbrev connected : (s : WsServer ℕ) × Reach wss (codes "s2c") s
unfolding serve_http
connected = (_, later start (handled (ok 7)))

abbrev closed_down : (t : WsServer ℕ) × Runs.Runs connected.0 2 t
unfolding serve_http close
closed_down = (
  _,
  Runs.more
      (Runs.more (Runs.more Runs.stay (closed_aside 0 refl)) (serve_returns server_closed refl))
      (derived_cancelled refl),
)

connected-Ends_example : (2 ≤ 7) × (HasReturned closed_down.0.at ⊎ Connected.IsOwed closed_down.0)
unfolding serve_http close
connected-Ends_example =
    Connected.connected-Ends wss (codes "s2c") connected.0 closed_down.0 2 connected.1 refl
      closed_down.1

twenty_two_fits : length (json_body codec (codes "v3") 22) < 65536
unfolding itoa
twenty_two_fits = omega arith

plain_login_answers_example :
    (plain_login codec (arrived over_tcp (tlv_frame msg_login (22 ∷ []) ++ 1 ∷ []) []) ≡ (
      logged (ok (pos 22)),
      record over_tcp { inbox = stream (arrives (1 ∷ []) ∷ []); encoding = tlv },
    ))
    × (plain_login codec (
          arrived over_tcp
            (tlv_frame msg_extended_login (json_body codec (codes "v3") 22) ++ 1 ∷ [])
            [])
        ≡ (
          logged (ok (pos 22)),
          record over_tcp { inbox = stream (arrives (1 ∷ []) ∷ []); encoding = json },
        ))
plain_login_answers_example =
    plain_login_answers codec over_tcp (codes "v3") (1 ∷ []) 22 [] (omega arith, (omega arith, tt))
      (omega arith) twenty_two_fits

-- An HTTP client whose request line arrives in two parts.
abbrev browser : Accepted
browser = record {
  input = arrives (codes "GE") ∷ arrives (codes "T /") ∷ [];
  write_faults = [];
  dialed = none;
  context_end = deadline_exceeded;
}

sniff_then_handle_cases_example :
    (s : List Chunk) × (items s ≡ items browser.input)
    × (((71 ∷ 69 ∷ 84 ∷ [] ≡ codes "GET")
          × (sniff_then_handle whole_numbers codec no_fields (λ b. b) (λ p e. p) server browser
              ≡ proxied whole_numbers codec no_fields (λ b. b) (λ p e. p) deadline_exceeded none s))
        ⊎ ((71 ∷ 69 ∷ 84 ∷ [] ≢ codes "GET")
            × (sniff_then_handle whole_numbers codec no_fields (λ b. b) (λ p e. p) server browser
                ≡ served whole_numbers codec no_fields (λ b. b) (λ p e. p) server browser s)))
sniff_then_handle_cases_example =
    sniff_then_handle_cases whole_numbers codec no_fields (λ b. b) (λ p e. p) server browser 71 69
      84 (byte 32 ∷ byte 47 ∷ []) (unfold items in refl)
