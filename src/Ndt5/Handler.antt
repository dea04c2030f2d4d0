-- ===== src/Ndt5/Handler.antt =====
-- ndt5/handler/wshandler.go: the command channel of the websocket servers.
pub mod Null
use ndt_server.Common.{◌≡◌, refl, List, [], ◌∷◌, ◌++◌, Bytes, Error, codes, Result, ok, err, Float}
use ndt_server.Ndt5.Control.{
  Server, handle_control_channel, no_result, record_saved, panic_counted, control_counted,
  active_inc, active_dec,
}
use ndt_server.Ndt5.Control
use ndt_server.Ndt5.Login.{ws_login}
use ndt_server.Ndt5.S2c.{Shown}
use ndt_server.Protocol.Conn.{Conn, frames}
use ndt_server.Protocol.Json.{Json}
use ndt_server.Protocol.Kind.{unknown}

-- What the control channel does, and the deferred close of the websocket.
pub data Effect (F : Type 0) : Type 0 where
  controlled : Control.Effect F → Effect F
  websocket_closed : Effect F

-- `protocol.AdaptWsConn`: a websocket has no encoding of its own.
unfoldable pub adapt_ws_conn : List (Result Bytes) → Conn
adapt_ws_conn rs = record { inbox = frames rs; encoding = unknown; outbox = []; write_faults = [] }

module _ (fl : Float) (J : Json) (shown : Shown fl.F) (trim_space : Bytes → Bytes)
    (panic_message : Bytes → Error → Bytes) where
  open fl use {F}

  abbrev pub all_controlled : List (Control.Effect F) → List (Effect F)
  all_controlled [] = []
  all_controlled (x ∷ fx) = controlled x ∷ all_controlled fx

  -- `ServeHTTP`, by the messages of the upgraded connection, or the error of the upgrade.
  unfoldable pub serve_http : Server F → Result (List (Result Bytes)) → List (Effect F)
  serve_http server (err e) = []
  serve_http server (ok rs) =
      all_controlled (
        handle_control_channel fl J shown trim_space panic_message
          (record server { login_ceremony = ws_login J }) (adapt_ws_conn rs))
      ++ websocket_closed ∷ []
