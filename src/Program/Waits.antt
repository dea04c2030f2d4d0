-- ===== src/Program/Waits.antt =====
-- The main program of ndt-server.go waits for its context and returns, or a failure ends it before the wait.
use ndt_server.Common.{
  ◌≡◌, refl, ◌∙◌, Bool, true, false, List, [], ◌∷◌, ◌++◌, Option, none, some, Bytes, Error,
  Bool-cases, ◌⊎◌, inl, inr,
}
use ndt_server.Program.{
  Service, metrics, events, ndt5_raw, ndt5_ws, ndt7_cleartext, ndt5_wss, ndt7_tls, health, Effect,
  sigterm_caught, waited, started, closed, fatal, returned, exited, Settings, Run, before, must,
  start, then_close, serve_until, has_tls, with_tls, verifier_error, serve_http, serve_all, main,
}

-- Everything is started before the one wait, and nothing is closed before it, nor started or ended by a failure
-- after it.
abbrev pub only_closes : List Effect → Bool
only_closes [] = true
only_closes (closed v ∷ fx) = only_closes fx
only_closes (x ∷ fx) = false

abbrev pub waits_once : List Effect → Bool
waits_once [] = false
waits_once (sigterm_caught ∷ fx) = waits_once fx
waits_once (waited ∷ fx) = only_closes fx
waits_once (started v ∷ fx) = waits_once fx
waits_once (closed v ∷ fx) = false
waits_once (fatal msg ∷ fx) = false

-- The main program has waited for its context, and has returned.
abbrev pub Returns : Run → Type 0
Returns (fx, returned) = waits_once fx ≡ true
Returns (fx, exited) = ⊥

-- A failure has ended the process, at once and before the wait.
abbrev pub starts_then_fails : List Effect → Bool
starts_then_fails [] = false
starts_then_fails (sigterm_caught ∷ fx) = starts_then_fails fx
starts_then_fails (started v ∷ fx) = starts_then_fails fx
starts_then_fails (fatal msg ∷ []) = true
starts_then_fails (fatal msg ∷ x ∷ fx) = false
starts_then_fails (waited ∷ fx) = false
starts_then_fails (closed v ∷ fx) = false

abbrev pub Fails : Run → Type 0
Fails (fx, returned) = ⊥
Fails (fx, exited) = starts_then_fails fx ≡ true

-- One or the other.
data IsEither (r : Run) : Type 0 where
  waits : Returns r → IsEither r
  fails : Fails r → IsEither r

only_closes-close :
    (fx : List Effect) (v : Service) → only_closes (fx ++ closed v ∷ []) ≡ only_closes fx
only_closes-close [] v = refl
only_closes-close (closed w ∷ fx) v = only_closes-close fx v
only_closes-close (sigterm_caught ∷ fx) v = refl
only_closes-close (waited ∷ fx) v = refl
only_closes-close (started w ∷ fx) v = refl
only_closes-close (fatal msg ∷ fx) v = refl

pub waits_once-close :
    (fx : List Effect) (v : Service) → waits_once (fx ++ closed v ∷ []) ≡ waits_once fx
waits_once-close [] v = refl
waits_once-close (sigterm_caught ∷ fx) v = waits_once-close fx v
waits_once-close (waited ∷ fx) v = only_closes-close fx v
waits_once-close (started w ∷ fx) v = waits_once-close fx v
waits_once-close (closed w ∷ fx) v = refl
waits_once-close (fatal msg ∷ fx) v = refl

-- Failures.
must_either : (o : Option Error) (msg : Bytes) (k : Run) → IsEither k → IsEither (must o msg k)
must_either none msg k h = h
must_either (some e) msg k h = fails refl

caught_either : (k : Run) → IsEither k → IsEither (before (sigterm_caught ∷ []) k)
caught_either (fx, returned) (waits h) = waits h
caught_either (fx, returned) (fails h) = elim h [ ]
caught_either (fx, exited) (waits h) = elim h [ ]
caught_either (fx, exited) (fails h) = fails h

started_either : (v : Service) (k : Run) → IsEither k → IsEither (before (started v ∷ []) k)
started_either v (fx, returned) (waits h) = waits h
started_either v (fx, returned) (fails h) = elim h [ ]
started_either v (fx, exited) (waits h) = elim h [ ]
started_either v (fx, exited) (fails h) = fails h

start_either :
    (s : Settings) (v : Service) (msg : Bytes) (k : Run) → IsEither k → IsEither (start s v msg k)
start_either s v msg k h = must_either (s.listens v) msg _ (started_either v k h)

close_either : (v : Service) (k : Run) → IsEither k → IsEither (then_close v k)
close_either v (fx, returned) (waits h) = waits (waits_once-close fx v ∙ h)
close_either v (fx, returned) (fails h) = elim h [ ]
close_either v (fx, exited) h = h

serve_until_either :
    (s : Settings) (v : Service) (msg : Bytes) (k : Run)
    → IsEither k
    → IsEither (serve_until s v msg k)
serve_until_either s v msg k h = start_either s v msg (then_close v k) (close_either v k h)

with_tls_either : (s : Settings) (k : Run) → IsEither k → IsEither (with_tls s k)
unfolding with_tls
with_tls_either s k h = elim (Bool-cases (has_tls s)) [
  | inl t ↦ rw t (serve_until_either s ndt5_wss _ _ (serve_until_either s ndt7_tls _ k h))
  | inr f ↦ rw f h
]

serve_all_either : (s : Settings) → IsEither (serve_all s)
unfolding serve_all serve_http
serve_all_either s = must_either (verifier_error s) _ _ (
    start_either s events _ _ (
      start_either s ndt5_raw _ _ (
        serve_until_either s ndt5_ws _ _ (
          serve_until_either s ndt7_cleartext _ _ (
            with_tls_either s _
              (serve_until_either s health _ (waited ∷ [], returned) (waits refl)))))))

either : (r : Run) → IsEither r → Returns r ⊎ Fails r
either r (waits h) = inl h
either r (fails h) = inr h

pub main_either : (s : Settings) → Returns (main s) ⊎ Fails (main s)
unfolding main
main_either s = either (main s) (
    must_either s.args_from_env _ _
      (caught_either _ (serve_until_either s metrics _ _ (serve_all_either s))))
