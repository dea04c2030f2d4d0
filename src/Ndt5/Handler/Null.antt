-- ===== src/Ndt5/Handler/Null.antt =====
-- A websocket client whose login has no contents (ndt5/handler/wshandler.go, ndt5/ndt5.go).
use ndt_server.Common.{
  ◌≡◌, refl, ap, ◌∙◌, List, [], ◌∷◌, ◌++◌, Bytes, Error, codes, Result, ok, Float, equal,
}
use ndt_server.Ndt5.Control.{
  Server, handle_control_channel, no_result, record_saved, conn_closed, panic_counted,
  control_counted, active_inc, active_dec, duration_observed, after_login, deferred,
  nil_dereference,
}
use ndt_server.Ndt5.Handler.{websocket_closed, adapt_ws_conn, all_controlled, serve_http}
use ndt_server.Ndt5.Login.Clients.{ws_login_null}
use ndt_server.Ndt5.Login.{ws_login}
use ndt_server.Ndt5.Panics.{panic_msg_to_err_type, first_word}
use ndt_server.Ndt5.S2c.{Shown}
use ndt_server.Protocol.Json.{Json}
use ndt_server.Protocol.Kind.{msg_extended_login}
use ndt_server.Protocol.Tlv.{tlv_frame}

module _ (fl : Float) (J : Json) (shown : Shown fl.F) (trim_space : Bytes → Bytes)
    (panic_message : Bytes → Error → Bytes) where
  open fl use {F}

  panic_label :
      panic_msg_to_err_type (nil_dereference fl J shown trim_space panic_message) ≡ codes "panic"
  unfolding panic_msg_to_err_type first_word equal
  panic_label = refl

  -- A websocket client whose login message has the JSON text `null` as its contents makes the handler
  -- dereference a nil pointer. The panic is recovered and counted as `panic`, and no test runs: an empty
  -- record is saved, and the connection and the websocket are closed.
  pub serve_http_null :
      (server : Server F) (rs : List (Result Bytes))
      → serve_http fl J shown trim_space panic_message server
          (ok (ok (tlv_frame msg_extended_login (codes "null")) ∷ rs))
        ≡ all_controlled fl J shown trim_space panic_message (
            active_inc
            ∷ record_saved (no_result fl J shown trim_space panic_message)
            ∷ conn_closed
            ∷ panic_counted (codes "panic")
            ∷ control_counted (codes "panic")
            ∷ duration_observed server.duration
            ∷ active_dec
            ∷ [])
          ++ websocket_closed ∷ []
  unfolding serve_http handle_control_channel adapt_ws_conn
  serve_http_null server rs =
      ap
        (λ o.
          all_controlled fl J shown trim_space panic_message (
            deferred fl J shown trim_space panic_message server.duration (
              after_login fl J shown trim_space panic_message
                (record server { login_ceremony = ws_login J })
                (no_result fl J shown trim_space panic_message) o))
          ++ websocket_closed ∷ [])
        (ws_login_null J (adapt_ws_conn []) rs)
      ∙ unfold after_login in rw panic_label refl
