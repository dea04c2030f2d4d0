-- ===== src/Program/LameDuck.antt =====
-- The lame-duck status of ndt-server.go: `catchSigterm`, `setLameDuck` and `handleHealth`. The goroutine
-- and the signals of the system are a step relation; the channel `c` holds one signal.
use ndt_server.Common.{
  ℕ, zero, suc, ◌+◌, ◌≤◌, ◌≡◌, refl, ◌⊎◌, Bool, true, false, arith, if◌then◌else◌,
}

-- Before the first `select`, in it, in the second, before the deferred `close(c)` with what it
-- found there, and ended.
pub data At : Type 0 where
  starting lively leaving ended : At

-- The global variables and the gauge, whether the context is cancelled, whether the
-- channel holds a signal, and where the goroutine stands. Of the past: the SIGTERMs that have come since the registration,
-- whether somebody else has cancelled the context, and whether a SIGTERM met the closed channel,
-- on which the signal package's send panics.
pub record State : Type 0 where
  pub is_lame_duck : Bool
  pub gauge : ℕ
  pub cancelled : Bool
  pub pending : Bool
  pub at : At
  pub sigterms : ℕ
  pub cancelled_outside : Bool
  pub crashed : Bool

abbrev is_nonzero : ℕ → Bool
is_nonzero zero = false
is_nonzero (suc n) = true

-- `setLameDuck`, with the statuses that are passed to it.
unfoldable pub set_lame_duck : ℕ → State → State
set_lame_duck status s = record s { is_lame_duck = is_nonzero status; gauge = status }

-- `handleHealth`: the HTTP status.
unfoldable pub handle_health : State → ℕ
handle_health s = if s.is_lame_duck then 500 else 200

-- A SIGTERM after the registration: the signal package sends without blocking, so a second one
-- is dropped if the channel is full.
unfoldable pub sigterm : At → State → State
sigterm starting s = s
sigterm lively s = record s { pending = true; sigterms = suc s.sigterms }
sigterm leaving s = record s { pending = true; sigterms = suc s.sigterms }
sigterm ended s = record s { crashed = true; sigterms = suc s.sigterms }

pub data Step (s : State) : State → Type 0 where
  registered : s.at ≡ starting → Step s (record (set_lame_duck 0 s) { at = lively })
  signalled : Step s (sigterm s.at s)
  cancelled_by_other : Step s (record s { cancelled = true; cancelled_outside = true })
  first_signal :
      s.at ≡ lively
      → s.pending ≡ true
      → Step s (record (set_lame_duck 1 s) { at = leaving; pending = false })
  first_cancel :
      s.at ≡ lively → s.cancelled ≡ true → Step s (record (set_lame_duck 1 s) { at = leaving })
  second_signal :
      s.at ≡ leaving
      → s.pending ≡ true
      → Step s (record s { at = ended; pending = false; cancelled = true })
  second_cancel : s.at ≡ leaving → s.cancelled ≡ true → Step s (record s { at = ended })

-- The state before `go catchSigterm()`.
abbrev pub initial : State
initial = record {
  is_lame_duck = false;
  gauge = 0;
  cancelled = false;
  pending = false;
  at = starting;
  sigterms = 0;
  cancelled_outside = false;
  crashed = false;
}

pub data Reach : State → Type 0 where
  start : Reach initial
  later : {s t : State} → Reach s → Step s t → Reach t

-- The signals that the goroutine has taken, unless the context was cancelled by somebody else.
abbrev pub taken : At → ℕ
taken starting = 0
taken lively = 0
taken leaving = 1
taken ended = 2

-- The signal in the channel, or the one that met it closed.
abbrev pub waiting : Bool → ℕ
waiting true = 1
waiting false = 0

abbrev pub is_leaving : At → Bool
is_leaving starting = false
is_leaving lively = false
is_leaving leaving = true
is_leaving ended = true

-- Without a cancellation by somebody else, the signals account for where the goroutine stands, and
-- the context is cancelled and the crash happens only at its end.
record Inv (s : State) : Type 0 where
  lame : s.is_lame_duck ≡ is_leaving s.at
  gauged : s.gauge ≡ waiting (is_leaving s.at)
  counted : (s.cancelled_outside ≡ true) ⊎ (taken s.at + waiting s.pending ≤ s.sigterms)
  cancels : s.cancelled ≡ true → (s.cancelled_outside ≡ true) ⊎ (s.at ≡ ended)
  crashes : s.crashed ≡ true → (s.at ≡ ended) × ((s.cancelled_outside ≡ true) ⊎ (3 ≤ s.sigterms))

sigterm-Inv : (a : At) (s : State) → s.at ≡ a → Inv s → Inv (sigterm a s)
unfolding sigterm
sigterm-Inv starting s e h = h
sigterm-Inv lively s e h = ground arith
sigterm-Inv leaving s e h = ground arith
sigterm-Inv ended s e h = ground arith

Step-Inv : {s t : State} → Step s t → Inv s → Inv t
unfolding set_lame_duck
Step-Inv (registered a) h = ground arith
Step-Inv {s} signalled h = sigterm-Inv s.at s refl h
Step-Inv cancelled_by_other h = ground arith
Step-Inv (first_signal a p) h = ground arith
Step-Inv (first_cancel a c) h = ground arith
Step-Inv (second_signal a p) h = ground arith
Step-Inv (second_cancel a c) h = ground arith

-- What the health endpoint and the gauge show, and what it took to come here.
abbrev pub IsOrderly : State → Type 0
IsOrderly s =
    (handle_health s ≡ (if is_leaving s.at then 500 else 200))
    × (s.gauge ≡ waiting (is_leaving s.at))
    × ((s.cancelled_outside ≡ true)
        ⊎ ((taken s.at + waiting s.pending ≤ s.sigterms)
            × ((s.cancelled ≡ false) ⊎ (2 ≤ s.sigterms))
            × ((s.crashed ≡ false) ⊎ (3 ≤ s.sigterms))))

Inv-IsOrderly : (s : State) → Inv s → IsOrderly s
unfolding handle_health
Inv-IsOrderly s h = ground arith

Reach-Inv : {s : State} → Reach s → Inv s
Reach-Inv start = ground arith
Reach-Inv (later r st) = Step-Inv st (Reach-Inv r)

-- In every state that the signals and the goroutine reach, the health endpoint answers 500 and the gauge is 1 from
-- the first SIGTERM that is taken, or the cancellation, to the end of the process, and before that 200 and 0. Unless somebody else has
-- cancelled the context, no more signals are accounted for than have come, the context is cancelled
-- only after two of them, and the process crashes in the signal package only after a third.
pub Reach-IsOrderly : {s : State} → Reach s → IsOrderly s
Reach-IsOrderly {s} r = Inv-IsOrderly s (Reach-Inv r)
