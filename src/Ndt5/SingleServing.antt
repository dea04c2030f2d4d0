-- ===== src/Ndt5/SingleServing.antt =====
-- ndt5/singleserving/server.go: servers that serve one connection, and the connection types of
-- ndt5/ndt/server.go. The websocket server is the step relation of its goroutines: `ServeOnce`, the one
-- that runs `serve`, the handlers of net/http, and those that only close the server. A step is an
-- access to the fields that the goroutines share. What the websocket library and the
-- TCP stack do is chosen by the step.
pub mod Answers
pub mod Once
pub mod Ends
pub mod Promise
pub mod Connected
pub mod Runs
use ndt_server.Common.{
  ◌≡◌, Bool, true, false, List, [], ◌∷◌, ◌++◌, Option, none, some, Bytes, Error, codes, Result, ok,
  err, ℕ, suc, equal, if◌then◌else◌, not, ◌&&◌,
}

-- `ConnectionType`, of which there are three.
pub data ConnectionType : Type 0 where
  ws wss plain : ConnectionType

-- `String`.
unfoldable pub connection_type_string : ConnectionType → Bytes
connection_type_string ws = codes "WS"
connection_type_string wss = codes "WSS"
connection_type_string plain = codes "PLAIN"

-- `Label`.
unfoldable pub connection_type_label : ConnectionType → Bytes
connection_type_label ws = codes "ndt5+ws"
connection_type_label wss = codes "ndt5+wss"
connection_type_label plain = codes "ndt5+plain"

-- `http.ErrServerClosed`.
abbrev pub server_closed : Error
server_closed = codes "http: Server closed"

-- The counters of starts and stops, the close of the listener and of the HTTP server, and the choice of the
-- label of the accepts, which counts nothing.
pub data Effect : Type 0 where
  start_counted stop_counted : ConnectionType → Effect
  listener_closed http_server_closed : Effect
  accept_labelled : ConnectionType → Bytes → Effect

-- Where `ServeOnce` stands: before `<-derivedCtx.Done()`, with `err` before the first test, before the
-- second test, before it reads the results, before the deferred `Close` with what it returns, and returned.
pub data At (C : Type 0) : Type 0 where
  waiting : At C
  woken : Option Error → At C
  checked counting : At C
  closing returned : Option C → Option Error → At C

-- The goroutine that serves: in `serve`, before `derivedCancel()` and ended.
pub data Serving : Type 0 where
  accepting cancelling ended : Serving

-- A `wsServer` and its goroutines; `closers` counts the pending `go s.Close()`, and `upgraded` is the
-- connections that the handlers have upgraded.
pub record WsServer (C : Type 0) : Type 0 where
  pub kind : ConnectionType
  pub direction : Bytes
  pub new_conn : Option C
  pub new_conn_err : Option Error
  pub once_done : Bool
  pub close_err : Option Error
  pub context_done : Bool
  pub at : At C
  pub serving : Serving
  pub closers : ℕ
  pub upgraded : List C
  pub effects : List Effect

-- `(*sync.Once).Do` of a function with these effects.
abbrev do_once : Bool → List Effect → List Effect
do_once true fx = []
do_once false fx = fx

abbrev is_none {ℓ} : {A : Type ℓ} → Option A → Bool
is_none none = true
is_none (some a) = false

abbrev is_failure : Option Error → Bool
is_failure none = false
is_failure (some e) = not (equal e server_closed)

module _ {C : Type 0} where
  -- `Close`.
  unfoldable pub close : WsServer C → WsServer C
  close s = record s {
    once_done = true;
    effects =
        s.effects
        ++ do_once s.once_done (stop_counted s.kind ∷ listener_closed ∷ http_server_closed ∷ []);
  }

  -- The next access of `ServeOnce` to what it shares.
  unfoldable pub advance : At C → WsServer C → WsServer C
  unfolding close
  advance waiting s = record s { at = woken s.close_err }
  advance (woken e) s =
      if is_none s.new_conn && is_failure e
      then record s { at = closing none (some (codes "Server did not close correctly")) }
      else record s { at = checked }
  advance checked s =
      if is_none s.new_conn && is_none s.new_conn_err
      then record s { at = closing none (some (codes "No connection created")) }
      else record s { at = counting }
  advance counting s = record s {
    at = closing s.new_conn s.new_conn_err;
    effects = s.effects ++ accept_labelled s.kind s.direction ∷ [];
  }
  advance (closing c e) s = record (close s) { at = returned c e }
  advance (returned c e) s = s

  -- `ServeOnce` waits until the derived context is done, and then goes on until it has returned.
  unfoldable pub can_advance : WsServer C → At C → Bool
  can_advance s waiting = s.context_done
  can_advance s (woken e) = true
  can_advance s checked = true
  can_advance s counting = true
  can_advance s (closing c e) = true
  can_advance s (returned c e) = false

  -- `ServeHTTP` after a good upgrade, and after one that failed.
  unfoldable pub serve_http : Result C → WsServer C → WsServer C
  serve_http (ok c) s = record s {
    new_conn = some c;
    closers = suc s.closers;
    upgraded = c ∷ s.upgraded;
  }
  serve_http (err e) s = record s { new_conn_err = some e }

  -- One step of one goroutine, or the end of the parent context.
  pub data Step (s : WsServer C) : WsServer C → Type 0 where
    handled : (r : Result C) → Step s (serve_http r s)
    closed_aside : (n : ℕ) → s.closers ≡ suc n → Step s (close (record s { closers = n }))
    serve_returns :
        (e : Error)
        → s.serving ≡ accepting
        → Step s (record s { close_err = some e; serving = cancelling })
    derived_cancelled :
        s.serving ≡ cancelling → Step s (record s { context_done = true; serving = ended })
    parent_done : Step s (record s { context_done = true })
    serve_once : can_advance s s.at ≡ true → Step s (advance s.at s)

  -- A server that listens, before `ServeOnce` waits.
  abbrev pub new_ws_server : ConnectionType → Bytes → WsServer C
  new_ws_server kind direction = record {
    kind = kind;
    direction = direction;
    new_conn = none;
    new_conn_err = none;
    once_done = false;
    close_err = none;
    context_done = false;
    at = waiting;
    serving = accepting;
    closers = 0;
    upgraded = [];
    effects = [];
  }

  -- `listenWS`, by the port or the error that `net.Listen` gives: a server with its port.
  unfoldable pub listen : Bytes → Result ℕ → Result (WsServer C × ℕ)
  listen direction (err e) = err e
  listen direction (ok port) = ok (new_ws_server ws direction, port)

  -- `ListenWS`.
  unfoldable pub listen_ws : Bytes → Result ℕ → Result (WsServer C × ℕ) × List Effect
  unfolding listen
  listen_ws direction r = (listen direction r, start_counted ws ∷ [])

  abbrev encrypted : Result (WsServer C × ℕ) → Result (WsServer C × ℕ)
  encrypted (err e) = err e
  encrypted (ok (s, port)) = ok (record s { kind = wss }, port)

  -- `ListenWSS`, which makes a server of the other kind of that of `listenWS`.
  unfoldable pub listen_wss : Bytes → Result ℕ → Result (WsServer C × ℕ) × List Effect
  unfolding listen
  listen_wss direction r = (encrypted (listen direction r), start_counted wss ∷ [])

  -- The states of a server that has been started.
  pub data Reach (kind : ConnectionType) (direction : Bytes) : WsServer C → Type 0 where
    start : Reach kind direction (new_ws_server kind direction)
    later : {s t : WsServer C} → Reach kind direction s → Step s t → Reach kind direction t

-- `ListenPlain`.
unfoldable pub listen_plain : Result ℕ → Result ℕ × List Effect
listen_plain r = (r, start_counted plain ∷ [])

-- `ServeOnce` of the plain server, by what `Accept` has given when the derived context is done, and the
-- error of that context.
unfoldable pub plain_serve_once :
    {C : Type 0} → Bytes → Error → Option (Result C) → Result C × List Effect
plain_serve_once direction context_error none =
    (err (codes "nil conn, nil err: " ++ context_error), stop_counted plain ∷ listener_closed ∷ [])
plain_serve_once direction context_error (some (err e)) =
    (err e, stop_counted plain ∷ listener_closed ∷ [])
plain_serve_once direction context_error (some (ok c)) =
    (ok c, accept_labelled plain direction ∷ stop_counted plain ∷ listener_closed ∷ [])
