-- ===== src/Program.antt =====
-- ndt-server.go: the main program, its start and its end, with the labels, the settings of the HTTP servers
-- and the lame-duck status. `flag`, the access tokens and the socket calls are given by how they end.
pub mod LameDuck
pub mod Ends
pub mod Ready
pub mod Waits
pub mod Routes
mod Tests
use ndt_server.Common.{
  ℕ, ◌*◌, ◌≡◌, Bool, true, false, not, ◌&&◌, ◌||◌, List, [], ◌∷◌, ◌++◌, Option, none, some, Bytes,
  Error, codes, equal, if◌then◌else◌,
}
use ndt_server.Ndt7.Model.{NameValue}

-- `parseDeploymentLabels` with the pairs of the map in the order of its `range`: the metadata, and `version.Version`.
abbrev is_canary : NameValue → Bool
is_canary l = equal l.name (codes "deployment") && equal l.value (codes "canary")

unfoldable pub parse_deployment_labels : List NameValue → Bytes → List NameValue × Bytes
parse_deployment_labels [] version = ([], version)
parse_deployment_labels (l ∷ ls) version =
    let (ms, v) =
      parse_deployment_labels ls (if is_canary l then version ++ codes "-canary" else version) in
    (l ∷ ms, v)

pub data TlsVersion : Type 0 where
  tls_1_2 tls_1_3 : TlsVersion

-- An `http.Server`: the address, the lowest version of TLS, if it is set, and the timeouts in nanoseconds.
pub record HttpServer : Type 0 where
  pub addr : Bytes
  pub min_version : Option TlsVersion
  pub read_timeout : ℕ
  pub write_timeout : ℕ

abbrev minute : ℕ
minute = 60 * 1000000000

abbrev min_version_of : Bytes → Option TlsVersion
min_version_of b =
    if equal b (codes "1.3")
    then some tls_1_3
    else if equal b (codes "1.2")
    then some tls_1_2
    else none

-- `httpServer`, with the flag `tls.version`.
unfoldable pub http_server : Bytes → Bytes → HttpServer
http_server tls_version addr = record {
  addr = addr;
  min_version = min_version_of tls_version;
  read_timeout = minute;
  write_timeout = minute;
}

-- What `main` starts.
pub data Service : Type 0 where
  metrics events ndt5_raw ndt5_ws ndt7_cleartext ndt5_wss ndt7_tls health : Service

-- `go catchSigterm()`, a service that serves from then on, its deferred close, the wait for the
-- context, and an exit of the process by a failure, which runs no deferred call.
pub data Effect : Type 0 where
  sigterm_caught waited : Effect
  started closed : Service → Effect
  fatal : Bytes → Effect

pub data Ending : Type 0 where
  returned exited : Ending

-- The flags that steer the start, how the calls end that may fail, and what the library of the metrics prints then.
pub record Settings : Type 0 where
  pub cert_file : Bytes
  pub key_file : Bytes
  pub token_required5 : Bool
  pub token_required7 : Bool
  pub args_from_env : Option Error
  pub new_verifier : Option Error
  pub metrics_failure : Bytes
  pub listens : Service → Option Error

abbrev pub Run : Type 0
Run = List Effect × Ending

abbrev pub before : List Effect → Run → Run
before fx (gx, e) = (fx ++ gx, e)

-- `rtx.Must`: a failure ends the process.
abbrev pub must : Option Error → Bytes → Run → Run
must (some e) msg k = (fatal msg ∷ [], exited)
must none msg k = k

-- A service without a deferred close, and one with it.
abbrev pub start : Settings → Service → Bytes → Run → Run
start s v msg k = must (s.listens v) msg (before (started v ∷ []) k)

abbrev pub then_close : Service → Run → Run
then_close v (fx, returned) = (fx ++ closed v ∷ [], returned)
then_close v (fx, exited) = (fx, exited)

abbrev pub serve_until : Settings → Service → Bytes → Run → Run
serve_until s v msg k = start s v msg (then_close v k)

-- The TLS servers need a certificate and a key.
abbrev pub has_tls : Settings → Bool
has_tls s = not (equal s.cert_file []) && not (equal s.key_file [])

unfoldable pub with_tls : Settings → Run → Run
with_tls s k =
    if has_tls s
    then serve_until s ndt5_wss (codes "Could not start ndt5 WsS server")
        (serve_until s ndt7_tls (codes "Could not start ndt7 server") k)
    else k

abbrev verifier_error : Settings → Option Error
verifier_error s = if s.token_required5 || s.token_required7 then s.new_verifier else none

-- The HTTP servers of `main`, up to the wait for the context.
unfoldable pub serve_http : Settings → Run
unfolding with_tls
serve_http s = serve_until s ndt5_ws (codes "Could not start unencrypted ndt5 NDT server") (
    serve_until s ndt7_cleartext (codes "Could not start ndt7 cleartext server") (
      with_tls s
        (serve_until s health (codes "Could not start health server") (waited ∷ [], returned))))

-- `main` from the verifier on.
unfoldable pub serve_all : Settings → Run
unfolding serve_http
serve_all s =
    must (verifier_error s) (codes "Failed to load verifier for when tokens are required") (
      start s events (codes "Could not listen on")
        (start s ndt5_raw (codes "Could not start raw server") (serve_http s)))

-- `main`.
unfoldable pub main : Settings → Run
unfolding serve_all
main s =
    must s.args_from_env (codes "Could not parse env args")
      (before (sigterm_caught ∷ []) (serve_until s metrics s.metrics_failure (serve_all s)))
