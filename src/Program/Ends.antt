-- ===== src/Program/Ends.antt =====
-- How the main program of ndt-server.go starts and ends.
use mathlib.Core.List.{reverse, reverse-cons}
use ndt_server.Common.{
  ◌≡◌, refl, sym, ap, ◌∙◌, List, [], ◌∷◌, ◌++◌, Option, none, some, Bytes, Error, Bool-cases, inl,
  inr,
}
use ndt_server.Program.{
  Service, metrics, events, ndt5_raw, ndt5_ws, ndt7_cleartext, ndt5_wss, ndt7_tls, health, Effect,
  sigterm_caught, waited, started, closed, fatal, returned, exited, Settings, Run, before, must,
  start, serve_until, has_tls, with_tls, verifier_error, serve_http, serve_all, main,
}

-- The events and the raw server end with the context; the others have a deferred close.
abbrev pub closable : Service → List Service
closable metrics = metrics ∷ []
closable events = []
closable ndt5_raw = []
closable ndt5_ws = ndt5_ws ∷ []
closable ndt7_cleartext = ndt7_cleartext ∷ []
closable ndt5_wss = ndt5_wss ∷ []
closable ndt7_tls = ndt7_tls ∷ []
closable health = health ∷ []

-- What has been started that wants a close.
unfoldable pub starts : List Effect → List Service
starts [] = []
starts (sigterm_caught ∷ fx) = starts fx
starts (waited ∷ fx) = starts fx
starts (started v ∷ fx) = closable v ++ starts fx
starts (closed v ∷ fx) = starts fx
starts (fatal m ∷ fx) = starts fx

unfoldable pub closes : List Effect → List Service
closes [] = []
closes (sigterm_caught ∷ fx) = closes fx
closes (waited ∷ fx) = closes fx
closes (started v ∷ fx) = closes fx
closes (closed v ∷ fx) = v ∷ closes fx
closes (fatal m ∷ fx) = closes fx

closes-close : (fx : List Effect) (v : Service) → closes (fx ++ closed v ∷ []) ≡ closes fx ++ v ∷ []
unfolding closes
closes-close [] v = refl
closes-close (sigterm_caught ∷ fx) v = closes-close fx v
closes-close (waited ∷ fx) v = closes-close fx v
closes-close (started w ∷ fx) v = closes-close fx v
closes-close (closed w ∷ fx) v = ap (◌∷◌ w) (closes-close fx v)
closes-close (fatal m ∷ fx) v = closes-close fx v

starts-close : (fx : List Effect) (v : Service) → starts (fx ++ closed v ∷ []) ≡ starts fx
unfolding starts
starts-close [] v = refl
starts-close (sigterm_caught ∷ fx) v = starts-close fx v
starts-close (waited ∷ fx) v = starts-close fx v
starts-close (started w ∷ fx) v = ap (λ l. closable w ++ l) (starts-close fx v)
starts-close (closed w ∷ fx) v = starts-close fx v
starts-close (fatal m ∷ fx) v = starts-close fx v

-- A run that returns closes what it has started, the last first; one that exits closes nothing.
abbrev pub IsTidy : Run → Type 0
IsTidy (fx, returned) = closes fx ≡ reverse (starts fx)
IsTidy (fx, exited) = closes fx ≡ []

must-IsTidy : (e : Option Error) (msg : Bytes) (k : Run) → IsTidy k → IsTidy (must e msg k)
must-IsTidy (some e) msg k h = unfold closes in refl
must-IsTidy none msg k h = h

start-IsTidy :
    (s : Settings) (v : Service) (msg : Bytes) (k : Run)
    → closable v ≡ []
    → IsTidy k
    → IsTidy (start s v msg k)
unfolding closes starts
start-IsTidy s v msg (fx, returned) c h = must-IsTidy (s.listens v) msg _ (rw c h)
start-IsTidy s v msg (fx, exited) c h = must-IsTidy (s.listens v) msg _ h

serve_until-IsTidy :
    (s : Settings) (v : Service) (msg : Bytes) (k : Run)
    → closable v ≡ v ∷ []
    → IsTidy k
    → IsTidy (serve_until s v msg k)
unfolding closes starts
serve_until-IsTidy s v msg (fx, returned) c h = must-IsTidy (s.listens v) msg _ (
    closes-close fx v
    ∙ rw (starts-close fx v, c) (ap (λ l. l ++ v ∷ []) h ∙ sym (reverse-cons v (starts fx))))
serve_until-IsTidy s v msg (fx, exited) c h = must-IsTidy (s.listens v) msg _ h

with_tls-IsTidy : (s : Settings) (k : Run) → IsTidy k → IsTidy (with_tls s k)
unfolding with_tls
with_tls-IsTidy s k h = elim (Bool-cases (has_tls s)) [
  | inl t ↦ rw t (serve_until-IsTidy s ndt5_wss _ _ refl (serve_until-IsTidy s ndt7_tls _ k refl h))
  | inr f ↦ rw f h
]

caught-IsTidy : (k : Run) → IsTidy k → IsTidy (before (sigterm_caught ∷ []) k)
unfolding closes starts
caught-IsTidy (fx, returned) h = h
caught-IsTidy (fx, exited) h = h

waited-IsTidy : IsTidy (waited ∷ [], returned)
unfolding closes starts
waited-IsTidy = refl

serve_http-IsTidy : (s : Settings) → IsTidy (serve_http s)
unfolding serve_http
serve_http-IsTidy s = serve_until-IsTidy s ndt5_ws _ _ refl (
    serve_until-IsTidy s ndt7_cleartext _ _ refl (
      with_tls-IsTidy s _
        (serve_until-IsTidy s health _ (waited ∷ [], returned) refl waited-IsTidy)))

serve_all-IsTidy : (s : Settings) → IsTidy (serve_all s)
unfolding serve_all
serve_all-IsTidy s = must-IsTidy (verifier_error s) _ _ (
    start-IsTidy s events _ _ refl
      (start-IsTidy s ndt5_raw _ (serve_http s) refl (serve_http-IsTidy s)))

-- If the main program returns, it has closed each server that it started and that does not end with the
-- context, once and in the reverse of the order of their starts. If a failure ends it, it has closed none.
pub main-IsTidy : (s : Settings) → IsTidy (main s)
unfolding main
main-IsTidy s =
    must-IsTidy s.args_from_env _ _
      (caught-IsTidy _ (serve_until-IsTidy s metrics _ (serve_all s) refl (serve_all-IsTidy s)))
