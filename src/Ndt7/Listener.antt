-- ===== src/Ndt7/Listener.antt =====
-- ndt7/listener/listener.go: servers that start in the background.
use ndt_server.Common.{
  Bool, Option, none, some, Bytes, Error, codes, Result, ok, err, equal, ends_with, not,
  if◌then◌else◌,
}

-- `ListenAndServeAsync`, by the address that `net.Listen` gives: its error, or nil, and the server's address,
-- which is the listener's if any port was asked for.
unfoldable pub listen_and_serve_async : Bytes → Result Bytes → Option Error × Bytes
listen_and_serve_async addr (err e) = (some e, addr)
listen_and_serve_async addr (ok bound) = (none, if ends_with (codes ":0") addr then bound else addr)

-- `ListenAndServeTLSAsync`, which leaves the address as it is.
unfoldable pub listen_and_serve_tls_async : Bytes → Result Bytes → Option Error × Bytes
listen_and_serve_tls_async addr (err e) = (some e, addr)
listen_and_serve_tls_async addr (ok bound) = (none, addr)

-- Whether `serve` and `serveTLS` end the process, by the error with which the server closes.
unfoldable pub serve_is_fatal : Error → Bool
serve_is_fatal e = not (equal e (codes "http: Server closed"))
