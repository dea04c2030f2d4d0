-- ===== src/Ndt5/Servers/Kinds.antt =====
-- The tests of an ndt5 server run over connections of the server's own type (ndt5/handler/wshandler.go,
-- ndt5/plain/plain.go).
use ndt_server.Common.{ℕ, ◌≡◌, refl, List, [], ◌∷◌, Bytes, Result, ok, err}
use ndt_server.Ndt5.Servers.{
  SingleMeasurementServer, websocket_server, encrypted_server, plain_server, NdtServer, new_ws,
  new_wss, new_server, plain_ndt_server, make_server, single_serving_server,
}
use ndt_server.Ndt5.SingleServing.{
  ConnectionType, ws, wss, plain, start_counted, new_ws_server, listen, listen_ws, listen_wss,
  listen_plain,
}
use ndt_server.Ndt7.Model.{NameValue}

-- The servers that the main program makes.
pub data IsMade : NdtServer → Type 0 where
  over_ws : (datadir : Bytes) (md : List NameValue) → IsMade (new_ws datadir md)
  over_wss :
      (datadir cert_file key_file : Bytes) (md : List NameValue)
      → IsMade (new_wss datadir cert_file key_file md)
  over_tcp :
      (datadir ws_addr : Bytes) (md : List NameValue)
      → IsMade (plain_ndt_server (new_server datadir ws_addr md))

module _ {C : Type 0} where
  -- A server of this type that has just been started for this direction.
  abbrev pub IsStarted : ConnectionType → Bytes → SingleMeasurementServer C → Type 0
  IsStarted k d (websocket_server s) = (k ≡ ws) × (s ≡ new_ws_server k d)
  IsStarted k d (encrypted_server s cert_file key_file) = (k ≡ wss) × (s ≡ new_ws_server k d)
  IsStarted k d (plain_server e) = (k ≡ plain) × (e ≡ d)

  -- A server with the port that was given, or the error.
  abbrev pub IsServerAt :
      ConnectionType → Bytes → Result ℕ → Result (SingleMeasurementServer C × ℕ) → Type 0
  IsServerAt k d (ok port) (ok (s, p)) = (p ≡ port) × IsStarted k d s
  IsServerAt k d (ok port) (err e) = ⊥
  IsServerAt k d (err x) (ok s) = ⊥
  IsServerAt k d (err x) (err e) = e ≡ x

-- Each of the three servers of the program makes single-serving servers of its own connection type, which is the one
-- that the records and the metrics name: the start is counted under that type, and if a port could be opened, the
-- server is of that type and direction, listens at that port and has served nobody yet; else the error is returned.
pub single_serving_server-IsServerAt :
    (C : Type 0) (s : NdtServer) (direction : Bytes) (r : Result ℕ)
    → IsMade s
    → let made = single_serving_server {C = C} s direction r in
      IsServerAt s.connection_type direction r made.0
      × (made.1 ≡ start_counted s.connection_type ∷ [])
unfolding single_serving_server make_server new_ws new_wss plain_ndt_server listen listen_ws
    listen_wss listen_plain
single_serving_server-IsServerAt C s d (ok port) (over_ws datadir md) = ((refl, (refl, refl)), refl)
single_serving_server-IsServerAt C s d (ok port) (over_wss datadir cert_file key_file md) =
    ((refl, (refl, refl)), refl)
single_serving_server-IsServerAt C s d (ok port) (over_tcp datadir ws_addr md) =
    ((refl, (refl, refl)), refl)
single_serving_server-IsServerAt C s d (err e) (over_ws datadir md) = (refl, refl)
single_serving_server-IsServerAt C s d (err e) (over_wss datadir cert_file key_file md) =
    (refl, refl)
single_serving_server-IsServerAt C s d (err e) (over_tcp datadir ws_addr md) = (refl, refl)
