-- ===== src/Program/Routes.antt =====
-- ndt-server.go: the HTTP servers of `main`, with their routes and the access control before them. `http.ServeMux` and
-- the package controller of m-lab/access are libraries: a server is the patterns that are registered with its
-- mux, and the arguments with which its access controller is set up.
pub mod Guarded
use ndt_server.Common.{
  ◌≡◌, ◌⊎◌, Bool, true, false, List, [], ◌∷◌, ◌++◌, Option, none, some, Bytes, codes, equal, not,
  ◌&&◌, ℕ, if◌then◌else◌,
}
use ndt_server.Ndt5.Servers.{NdtServer, PlainServer, new_ws, new_wss, new_server}
use ndt_server.Ndt7.Model.{NameValue}
use ndt_server.Ndt7.Spec.{
  SubtestKind, subtest_download, subtest_upload, download_url_path, upload_url_path,
}
use ndt_server.Program.{
  HttpServer, http_server, Service, metrics, events, ndt5_raw, ndt5_ws, ndt7_cleartext, ndt5_wss,
  ndt7_tls, health,
}

-- The flags, and the metadata that `parseDeploymentLabels` gives.
pub record Flags : Type 0 where
  pub ndt7_addr : Bytes
  pub ndt7_addr_cleartext : Bytes
  pub ndt5_ws_addr : Bytes
  pub ndt5_wss_addr : Bytes
  pub health_addr : Bytes
  pub cert_file : Bytes
  pub key_file : Bytes
  pub tls_version : Bytes
  pub data_dir : Bytes
  pub html_dir : Bytes
  pub compress : Bool
  pub token_required5 : Bool
  pub token_required7 : Bool
  pub token_machine : Bytes
  pub server_metadata : List NameValue

-- The handler of ndt7, which is shared by the two ndt7 servers.
pub record Ndt7Handler : Type 0 where
  pub data_dir : Bytes
  pub secure_port : Bytes
  pub insecure_port : Bytes
  pub server_metadata : List NameValue
  pub compress_results : Bool

-- An `http.Handler` that `main` registers: the files of a directory, the control channel of ndt5, a subtest of
-- ndt7, and `handleHealth`.
pub data Handler : Type 0 where
  static_files : Bytes → Handler
  ndt5_channel : NdtServer → Handler
  ndt7_subtest : SubtestKind → Ndt7Handler → Handler
  health_check : Handler

-- The arguments of `controller.Setup`: whether tokens are required, the machine that they must name, the
-- paths whose transmissions are limited, and those that want a token.
pub record Access : Type 0 where
  pub required : Bool
  pub machine : Bytes
  pub tx_paths : List Bytes
  pub token_paths : List Bytes

-- A server, its routes, the access controller before its mux, if there is one, and the certificate and the key.
pub record Site : Type 0 where
  pub server : HttpServer
  pub routes : List (Bytes × Handler)
  pub access : Option Access
  pub tls : Option (Bytes × Bytes)

abbrev pub ndt5_path : Bytes
ndt5_path = codes "/ndt_protocol"

-- `ac5` and `ac7`.
unfoldable pub access5 : Flags → Access
access5 f = record {
  required = f.token_required5;
  machine = f.token_machine;
  tx_paths = ndt5_path ∷ [];
  token_paths = ndt5_path ∷ [];
}

unfoldable pub access7 : Flags → Access
access7 f = record {
  required = f.token_required7;
  machine = f.token_machine;
  tx_paths = download_url_path ∷ [];
  token_paths = download_url_path ∷ upload_url_path ∷ [];
}

abbrev pub ndt5_dir : Flags → Bytes
ndt5_dir f = f.data_dir ++ codes "/ndt5"

-- The server of the plain port.
unfoldable pub raw_server : Flags → PlainServer
raw_server f = new_server (ndt5_dir f) f.ndt5_ws_addr f.server_metadata

abbrev pub ndt7_handler : Flags → Ndt7Handler
ndt7_handler f = record {
  data_dir = f.data_dir;
  secure_port = f.ndt7_addr;
  insecure_port = f.ndt7_addr_cleartext;
  server_metadata = f.server_metadata;
  compress_results = f.compress;
}

-- `ndt7Mux`.
unfoldable pub ndt7_mux : Flags → List (Bytes × Handler)
ndt7_mux f =
    (codes "/", static_files f.html_dir)
    ∷ (download_url_path, ndt7_subtest subtest_download (ndt7_handler f))
    ∷ (upload_url_path, ndt7_subtest subtest_upload (ndt7_handler f))
    ∷ []

-- `ndt5WsMux` and `ndt5WssMux`.
unfoldable pub ndt5_mux : Flags → NdtServer → List (Bytes × Handler)
ndt5_mux f s = (codes "/", static_files f.html_dir) ∷ (ndt5_path, ndt5_channel s) ∷ []

-- The HTTP servers of `main`; the raw server, the metrics and the events are no HTTP servers of its own.
unfoldable pub site : Flags → Service → Option Site
site f metrics = none
site f events = none
site f ndt5_raw = none
site f ndt5_ws = some (record {
  server = http_server f.tls_version f.ndt5_ws_addr;
  routes = ndt5_mux f (new_ws (ndt5_dir f) f.server_metadata);
  access = none;
  tls = none;
})
site f ndt7_cleartext = some (record {
  server = http_server f.tls_version f.ndt7_addr_cleartext;
  routes = ndt7_mux f;
  access = some (access7 f);
  tls = none;
})
site f ndt5_wss = some (record {
  server = http_server f.tls_version f.ndt5_wss_addr;
  routes = ndt5_mux f (new_wss (ndt5_dir f) f.cert_file f.key_file f.server_metadata);
  access = some (access5 f);
  tls = some (f.cert_file, f.key_file);
})
site f ndt7_tls = some (record {
  server = http_server f.tls_version f.ndt7_addr;
  routes = ndt7_mux f;
  access = some (access7 f);
  tls = some (f.cert_file, f.key_file);
})
site f health = some (record {
  server = http_server f.tls_version f.health_addr;
  routes = (codes "/health", health_check) ∷ [];
  access = none;
  tls = none;
})
