-- ===== src/Program/Ready.antt =====
-- When the main program of ndt-server.go waits for its context.
use ndt_server.Common.{◌≡◌, false, [], none, ◌⊎◌}
use ndt_server.Program.{
  metrics, events, ndt5_raw, ndt5_ws, ndt7_cleartext, ndt5_wss, ndt7_tls, health, Settings,
}

-- What must go well for `main` to wait for its context: the TLS servers, without a certificate or a key or when both
-- listen.
abbrev pub TlsReady : Settings → Type 0
TlsReady s =
    ((s.cert_file ≡ []) ⊎ (s.key_file ≡ []))
    ⊎ ((s.listens ndt5_wss ≡ none) × (s.listens ndt7_tls ≡ none))

-- The verifier, if a protocol requires tokens.
abbrev pub VerifierReady : Settings → Type 0
VerifierReady s =
    ((s.token_required5 ≡ false) × (s.token_required7 ≡ false)) ⊎ (s.new_verifier ≡ none)

abbrev pub HttpReady : Settings → Type 0
HttpReady s =
    (s.listens ndt5_ws ≡ none)
    × ((s.listens ndt7_cleartext ≡ none) × (TlsReady s × (s.listens health ≡ none)))

abbrev pub AllReady : Settings → Type 0
AllReady s =
    VerifierReady s × ((s.listens events ≡ none) × ((s.listens ndt5_raw ≡ none) × HttpReady s))

abbrev pub IsReady : Settings → Type 0
IsReady s = (s.args_from_env ≡ none) × ((s.listens metrics ≡ none) × AllReady s)
