-- ===== src/Program/Tests/RouteTests.antt =====
-- A request to the main program.
use ndt_server.Common.{
  sym, ◌∙◌, ◌≡◌, refl, ◌⊎◌, inl, inr, true, false, List, [], ◌∷◌, Option, none, some, Bytes, codes,
  equal, equal→eq, Bool-cases, ends_with, if◌then◌else◌,
}
use ndt_server.Program.Routes.Guarded.{IsRoute, Mux}
use ndt_server.Program.Routes.{Flags, Handler}

-- The handler that is registered for this very path.
abbrev exact : List (Bytes × Handler) → Bytes → Option Handler
exact [] path = none
exact ((q, h) ∷ rs) path = if equal q path then some h else exact rs path

abbrev or_root : Option Handler → Option Handler → Option Handler
or_root (some h) root = some h
or_root none root = root

exact-IsRoute :
    (rs : List (Bytes × Handler)) (path : Bytes) (h : Handler)
    → exact rs path ≡ some h
    → IsRoute path h rs
exact-IsRoute [] path h e = cc
exact-IsRoute ((q, k) ∷ rs) path h e = elim (Bool-cases (equal q path)) [
  | inl t ↦ let found : some k ≡ some h = rw t at e in inl (sym (equal→eq q path t), sym (cc found))
  | inr f ↦ inr (exact-IsRoute rs path h (rw f at e))
]

root_registered :
    (rs : List (Bytes × Handler)) (path : Bytes) (h : Handler) (o : Option Handler)
    → exact rs path ≡ o
    → or_root o (exact rs (codes "/")) ≡ some h
    → (q : Bytes) × IsRoute q h rs × ((q ≡ path) ⊎ (ends_with (codes "/") q ≡ true))
unfolding ends_with
root_registered rs path h (some k) e s = (path, exact-IsRoute rs path h (e ∙ s), inl refl)
root_registered rs path h none e s = (codes "/", exact-IsRoute rs (codes "/") h s, inr refl)

-- The handler of the path, and else that of the root.
abbrev small_mux : Mux
small_mux = record {
  serves = λ rs path. or_root (exact rs path) (exact rs (codes "/"));
  registered = λ rs path h e. root_registered rs path h (exact rs path) refl e;
}

abbrev flags : Flags
flags = record {
  ndt7_addr = codes ":443";
  ndt7_addr_cleartext = codes ":80";
  ndt5_ws_addr = codes "127.0.0.1:3002";
  ndt5_wss_addr = codes ":3010";
  health_addr = codes "127.0.0.1:8000";
  cert_file = codes "cert.pem";
  key_file = codes "key.pem";
  tls_version = codes "1.3";
  data_dir = codes "/var/spool/ndt";
  html_dir = codes "html";
  compress = true;
  token_required5 = true;
  token_required7 = false;
  token_machine = [];
  server_metadata = [];
}
