-- ===== src/Ndt5/Servers.antt =====
-- The three servers of ndt5 and the single-serving servers that they make for their tests, by the interfaces of
-- ndt5/ndt/server.go: `NewWS` and `NewWSS` of ndt5/handler/wshandler.go, `NewServer` of ndt5/plain/plain.go.
pub mod Kinds
pub mod Served
use ndt_server.Common.{ℕ, ◌*◌, List, ◌∷◌, [], Option, none, some, Bytes, Error, Result, ok, err}
use ndt_server.Ndt5.SingleServing.{
  ConnectionType, ws, wss, plain, Effect, WsServer, listen_ws, listen_wss, listen_plain,
}
use ndt_server.Ndt7.Model.{NameValue}

-- An `ndt.SingleMeasurementServer`: a websocket server, encrypted with the two files or not, or a plain one.
pub data SingleMeasurementServer (C : Type 0) : Type 0 where
  websocket_server : WsServer C → SingleMeasurementServer C
  encrypted_server : WsServer C → Bytes → Bytes → SingleMeasurementServer C
  plain_server : Bytes → SingleMeasurementServer C

-- `httpFactory`, `httpsFactory` with its two files, and the plain server itself.
pub data Factory : Type 0 where
  http_factory : Factory
  https_factory : Bytes → Bytes → Factory
  plain_factory : Factory

-- What the interface `ndt.Server` shows of a server: its factory, `ConnectionType`, `DataDir` and `Metadata`.
pub record NdtServer : Type 0 where
  pub server_factory : Factory
  pub connection_type : ConnectionType
  pub datadir : Bytes
  pub metadata : List NameValue

-- `NewWS`.
unfoldable pub new_ws : Bytes → List NameValue → NdtServer
new_ws datadir metadata = record {
  server_factory = http_factory;
  connection_type = ws;
  datadir = datadir;
  metadata = metadata;
}

-- `NewWSS`.
unfoldable pub new_wss : Bytes → Bytes → Bytes → List NameValue → NdtServer
new_wss datadir cert_file key_file metadata = record {
  server_factory = https_factory cert_file key_file;
  connection_type = wss;
  datadir = datadir;
  metadata = metadata;
}

-- A `plainServer`, with its timeouts in nanoseconds: how long a dial and a client may take.
pub record PlainServer : Type 0 where
  pub ws_addr : Bytes
  pub dial_timeout : ℕ
  pub datadir : Bytes
  pub timeout : ℕ
  pub metadata : List NameValue

abbrev second : ℕ
second = 1000000000

-- `NewServer`.
unfoldable pub new_server : Bytes → Bytes → List NameValue → PlainServer
new_server datadir ws_addr metadata = record {
  ws_addr = ws_addr;
  dial_timeout = 1 * second;
  datadir = datadir;
  timeout = 2 * 60 * second;
  metadata = metadata;
}

-- The methods `ConnectionType`, `DataDir`, `Metadata` and `SingleServingServer` of a `plainServer`.
unfoldable pub plain_ndt_server : PlainServer → NdtServer
plain_ndt_server p = record {
  server_factory = plain_factory;
  connection_type = plain;
  datadir = p.datadir;
  metadata = p.metadata;
}

module _ {C : Type 0} where
  abbrev as_websocket : Result (WsServer C × ℕ) → Result (SingleMeasurementServer C × ℕ)
  as_websocket (err e) = err e
  as_websocket (ok (s, port)) = ok (websocket_server s, port)

  abbrev as_encrypted :
      Bytes → Bytes → Result (WsServer C × ℕ) → Result (SingleMeasurementServer C × ℕ)
  as_encrypted cert_file key_file (err e) = err e
  as_encrypted cert_file key_file (ok (s, port)) = ok (encrypted_server s cert_file key_file, port)

  abbrev as_plain : Bytes → Result ℕ → Result (SingleMeasurementServer C × ℕ)
  as_plain direction (err e) = err e
  as_plain direction (ok port) = ok (plain_server direction, port)

  -- `SingleServingServer` of the factories, by what `net.Listen` gives: a server with its port.
  unfoldable pub make_server :
      Factory → Bytes → Result ℕ → Result (SingleMeasurementServer C × ℕ) × List Effect
  make_server http_factory direction r = let (s, fx) = listen_ws direction r in (as_websocket s, fx)
  make_server (https_factory cert_file key_file) direction r =
      let (s, fx) = listen_wss direction r in (as_encrypted cert_file key_file s, fx)
  make_server plain_factory direction r = let (p, fx) = listen_plain r in (as_plain direction p, fx)

  -- `SingleServingServer` of a server.
  unfoldable pub single_serving_server :
      NdtServer → Bytes → Result ℕ → Result (SingleMeasurementServer C × ℕ) × List Effect
  single_serving_server s direction r = make_server s.server_factory direction r
