-- ===== src/Ndt5/Meta.antt =====
-- ndt5/meta/meta.go: the names and values that a client sends about itself. `trim_space` stands for
-- `strings.TrimSpace`, which is not part of the program.
pub mod Bounds
pub mod Labels
use ndt_server.Common.{
  ℕ, zero, suc, ◌+◌, ◌==◌, Bool, true, false, List, [], ◌∷◌, ◌++◌, Option, none, some, String,
  Bytes, Error, codes, length, take, ltb, if◌then◌else◌,
}
use ndt_server.Ndt7.Model.{NameValue}
use ndt_server.Protocol.Conn.{Conn}
use ndt_server.Protocol.Json.{Json}
use ndt_server.Protocol.Kind.{test_prepare, test_start, test_msg, test_finalize}
use ndt_server.Protocol.Messager.{Messager, send_message, receive_message}

abbrev pub max_client_messages : ℕ
max_client_messages = 20

abbrev after_name : ℕ → Option (Bytes × Bytes) → Option (Bytes × Bytes)
after_name x none = none
after_name x (some (a, b)) = some (x ∷ a, b)

-- `strings.SplitN(.., ":", 2)`, where none is a slice of one element.
unfoldable pub split_colon : Bytes → Option (Bytes × Bytes)
split_colon [] = none
split_colon (x ∷ b) =
    let rest = split_colon b in if x == b':' then some ([], b) else after_name x rest

-- `if len(b) > n { b = b[:n] }`.
unfoldable pub cut : ℕ → Bytes → Bytes
cut n b = if ltb n (length b) then take n b else b

-- The results and the error that `ManageTest` returns, the control connection, and what it counts:
-- an error's label, or the number of messages.
pub record Run : Type 0 where
  pub results : Option (List NameValue)
  pub error : Option Error
  pub conn : Conn
  pub errors_counted : List String
  pub values_observed : List ℕ

abbrev pub fail : String → Error → Conn → Run
fail label e c = record {
  results = none;
  error = some e;
  conn = c;
  errors_counted = label ∷ [];
  values_observed = [];
}

-- What the loop holds: the messages counted, the results, the last error, and the connection.
pub record State : Type 0 where
  pub count : ℕ
  pub results : List NameValue
  pub error : Option Error
  pub conn : Conn

module _ (trim_space : Bytes → Bytes) where
  abbrev pub entry : Bytes × Bytes → NameValue
  entry (a, b) = record { name = cut 63 (trim_space a); value = cut 255 (trim_space b) }

  abbrev pub add : List NameValue → Option (Bytes × Bytes) → List NameValue
  add results none = results
  add results (some s) = results ++ entry s ∷ []

  module _ (J : Json) (m : Messager) where
    -- What follows `ReceiveMessage`: the state, and whether the loop goes on.
    unfoldable pub received : Option Bytes × Option Error × Conn → State → State × Bool
    received (b, some e, c) s = (record s { error = some e; conn = c }, false)
    received (none, none, c) s = (record s { error = none; conn = c }, false)
    received (some [], none, c) s = (record s { error = none; conn = c }, false)
    received (some (x ∷ b), none, c) s = (
      record {
        count = s.count + 1;
        results = add s.results (split_colon (x ∷ b));
        error = none;
        conn = c;
      },
      true,
    )

    abbrev pub next : List Bool → State × Bool → (State → State × List Bool) → State × List Bool
    next ends (s, false) k = (s, ends)
    next ends (s, true) k = k s

    -- The loop, with the number of messages that may still be counted. The list says for each test of
    -- the context whether it has ended; beyond the list it has not.
    unfoldable pub loop : ℕ → List Bool → State → State × List Bool
    loop zero ends s = (s, ends)
    loop (suc n) [] s = next [] (received (receive_message J m test_msg s.conn) s) (loop n [])
    loop (suc n) (true ∷ ends) s = (s, true ∷ ends)
    loop (suc n) (false ∷ ends) s =
        next ends (received (receive_message J m test_msg s.conn) s) (loop n ends)

    abbrev finished : List NameValue → ℕ → Option Error × Conn → Run
    finished results count (some e, c) = record {
      results = none;
      error = some e;
      conn = c;
      errors_counted = "TestFinalize" ∷ [];
      values_observed = count ∷ [];
    }
    finished results count (none, c) = record {
      results = some results;
      error = none;
      conn = c;
      errors_counted = [];
      values_observed = count ∷ [];
    }

    abbrev without_error : Option Error → State → Run
    without_error (some e) s = fail "ReceiveMessage" e s.conn
    without_error none s = finished s.results s.count (send_message J m test_finalize [] s.conn)

    -- What follows the loop; `context_error` is the context's error.
    unfoldable pub after_loop : Error → State × List Bool → Run
    after_loop context_error (s, true ∷ ends) = fail "context" context_error s.conn
    after_loop context_error (s, false ∷ ends) = without_error s.error s
    after_loop context_error (s, []) = without_error s.error s

    abbrev after_start : Error → List Bool → Option Error × Conn → Run
    after_start context_error ends (some e, c) = fail "TestStart" e c
    after_start context_error ends (none, c) =
        after_loop context_error (
          loop max_client_messages ends
            (record { count = 0; results = []; error = none; conn = c }))

    abbrev after_prepare : Error → List Bool → Option Error × Conn → Run
    after_prepare context_error ends (some e, c) = fail "TestPrepare" e c
    after_prepare context_error ends (none, c) =
        after_start context_error ends (send_message J m test_start [] c)

    -- `ManageTest`.
    unfoldable pub manage_test : Error → List Bool → Conn → Run
    manage_test context_error ends c =
        after_prepare context_error ends (send_message J m test_prepare [] c)
