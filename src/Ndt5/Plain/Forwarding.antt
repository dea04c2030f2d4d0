-- ===== src/Ndt5/Plain/Forwarding.antt =====
-- The goroutines that forward an HTTP client of the plain port (ndt5/plain/plain.go): the two copies, the one that
-- waits for them, and `sniffThenHandle` itself. When a copy ends is chosen by the connections, except that it ends
-- once both have been closed; when the deadline passes is chosen by the clock.
pub mod Ends
pub mod Refines
use ndt_server.Common.{
  ℕ, suc, ◌+◌, ◌≤◌, ◌≡◌, refl, ◌⊎◌, inl, inr, Bool, true, false, not, ◌&&◌, ◌||◌, List, [], ◌∷◌,
  ◌++◌, arith, if◌then◌else◌, ◌∙◌,
}
use ndt_server.Ndt5.Plain.{ContextEnd, canceled, deadline_exceeded}

-- `ctx.Err()`: the context of the connection is live, or has ended.
pub data Context : Type 0 where
  live : Context
  over : ContextEnd → Context

-- Where `sniffThenHandle` stands: at `<-ctx.Done()`, before the test of the error, before `fwd.Close()`, before the
-- deferred `conn.Close()`, and returned.
pub data At : Type 0 where
  waiting checking closing_fwd closing_conn returned : At

pub data Effect : Type 0 where
  timeout_counted fwd_closed conn_closed : Effect

-- The copies that run, of the input and of the output, whether the third goroutine waits, the context, and what
-- `sniffThenHandle` has done.
pub record State : Type 0 where
  pub copies_in : Bool
  pub copies_out : Bool
  pub waits : Bool
  pub context : Context
  pub at : At
  pub effects : List Effect

abbrev pub initial : State
initial = record {
  copies_in = true;
  copies_out = true;
  waits = true;
  context = live;
  at = waiting;
  effects = [];
}

-- A context ends once.
abbrev pub end_context : ContextEnd → Context → Context
end_context e live = over e
end_context e (over d) = over d

abbrev pub count_timeout : Context → List Effect
count_timeout live = []
count_timeout (over canceled) = []
count_timeout (over deadline_exceeded) = timeout_counted ∷ []

pub data Step (s : State) : State → Type 0 where
  input_copied : s.copies_in ≡ true → Step s (record s { copies_in = false })
  output_copied : s.copies_out ≡ true → Step s (record s { copies_out = false })
  waited :
      s.waits ≡ true
      → s.copies_in ≡ false
      → s.copies_out ≡ false
      → Step s (record s { waits = false; context = end_context canceled s.context })
  parent_ends : (e : ContextEnd) → s.context ≡ live → Step s (record s { context = over e })
  context_done :
      (e : ContextEnd) → s.at ≡ waiting → s.context ≡ over e → Step s (record s { at = checking })
  checked :
      s.at ≡ checking
      → Step s (record s { at = closing_fwd; effects = s.effects ++ count_timeout s.context })
  closes_fwd :
      s.at ≡ closing_fwd
      → Step s (record s { at = closing_conn; effects = s.effects ++ fwd_closed ∷ [] })
  returns :
      s.at ≡ closing_conn
      → Step s (record s {
        at = returned;
        context = end_context canceled s.context;
        effects = s.effects ++ conn_closed ∷ [];
      })

pub data Reach : State → Type 0 where
  start : Reach initial
  later : {s t : State} → Reach s → Step s t → Reach t
