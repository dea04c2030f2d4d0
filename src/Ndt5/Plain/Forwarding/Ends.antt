-- ===== src/Ndt5/Plain/Forwarding/Ends.antt =====
-- Forwarding a client ends (ndt5/plain/plain.go).
use ndt_server.Common.{
  ℕ, suc, ◌+◌, ◌≤◌, ◌<◌, ◌≡◌, refl, ◌⊎◌, inl, inr, Bool, true, false, ◌&&◌, List, [], ◌∷◌, arith,
}
use ndt_server.Ndt5.Plain.Forwarding.Refines.{IsTrace, Reach-IsTrace}
use ndt_server.Ndt5.Plain.Forwarding.{
  Context, live, over, end_context, At, waiting, checking, closing_fwd, closing_conn, returned,
  Effect, fwd_closed, conn_closed, State, initial, Reach, start, later, Step, input_copied,
  output_copied, waited, parent_ends, context_done, checked, closes_fwd, returns,
}
use ndt_server.Ndt5.Plain.{ContextEnd, canceled, deadline_exceeded}

abbrev one_if : Bool → ℕ
one_if true = 1
one_if false = 0

abbrev rank_context : Context → ℕ
rank_context live = 1
rank_context (over e) = 0

abbrev rank_at : At → ℕ
rank_at waiting = 4
rank_at checking = 3
rank_at closing_fwd = 2
rank_at closing_conn = 1
rank_at returned = 0

-- The steps that are left at most.
abbrev pub rank : State → ℕ
rank s =
    one_if s.copies_in
    + one_if s.copies_out
    + one_if s.waits
    + rank_context s.context
    + rank_at s.at

rank-end_context : (c : Context) → rank_context (end_context canceled c) ≤ rank_context c
rank-end_context live = omega arith
rank-end_context (over e) = omega arith

rank-Step : {s t : State} → Step s t → rank t < rank s
rank-Step {s} (input_copied h) = rw h (omega arith)
rank-Step {s} (output_copied h) = rw h (omega arith)
rank-Step {s} (waited h a b) = rw h (omega (arith, rank-end_context s.context))
rank-Step {s} (parent_ends e h) = rw h (omega arith)
rank-Step {s} (context_done e h k) = rw h (omega arith)
rank-Step {s} (checked h) = rw h (omega arith)
rank-Step {s} (closes_fwd h) = rw h (omega arith)
rank-Step {s} (returns h) = rw h (omega (arith, rank-end_context s.context))

-- A run of so many steps from the start.
pub data Run : ℕ → State → Type 0 where
  begin : Run 0 initial
  more : {n : ℕ} {s t : State} → Run n s → Step s t → Run (suc n) t

Run-rank : {n : ℕ} {s : State} → Run n s → n + rank s ≤ 8
Run-rank begin = omega arith
Run-rank (more r st) = omega (arith, Run-rank r, rank-Step st)

-- The third goroutine ends only with the context.
abbrev IsWaited : Bool → Context → Type 0
IsWaited true c = Unit
IsWaited false live = ⊥
IsWaited false (over e) = Unit

IsWaited-over : (w : Bool) (c : Context) → IsWaited w (end_context canceled c)
IsWaited-over true c = tt
IsWaited-over false live = tt
IsWaited-over false (over e) = tt

over-IsWaited : (w : Bool) (c : Context) (e : ContextEnd) → c ≡ over e → IsWaited w c
over-IsWaited w c e h = ground arith

Step-IsWaited : {s t : State} → Step s t → IsWaited s.waits s.context → IsWaited t.waits t.context
Step-IsWaited (input_copied h) k = k
Step-IsWaited (output_copied h) k = k
Step-IsWaited {s} (waited h a b) k = IsWaited-over false s.context
Step-IsWaited {s} (parent_ends e h) k = over-IsWaited s.waits (over e) e refl
Step-IsWaited (context_done e h l) k = k
Step-IsWaited (checked h) k = k
Step-IsWaited (closes_fwd h) k = k
Step-IsWaited {s} (returns h) k = IsWaited-over s.waits s.context

Run-IsWaited : {n : ℕ} {s : State} → Run n s → IsWaited s.waits s.context
Run-IsWaited begin = tt
Run-IsWaited (more r st) = Step-IsWaited st (Run-IsWaited r)

Run-Reach : {n : ℕ} {s : State} → Run n s → Reach s
Run-Reach begin = start
Run-Reach (more r st) = later (Run-Reach r) st

-- Whether `fwd.Close()` and `conn.Close()` have been called.
abbrev fwd_is_closed : List Effect → Bool
fwd_is_closed [] = false
fwd_is_closed (fwd_closed ∷ fx) = true
fwd_is_closed (x ∷ fx) = fwd_is_closed fx

abbrev conn_is_closed : List Effect → Bool
conn_is_closed [] = false
conn_is_closed (conn_closed ∷ fx) = true
conn_is_closed (x ∷ fx) = conn_is_closed fx

abbrev pub both_closed : List Effect → Bool
both_closed fx = fwd_is_closed fx && conn_is_closed fx

returned_closed : (c : Context) (fx : List Effect) → IsTrace returned c fx → both_closed fx ≡ true
returned_closed live fx h = elim h [ ]
returned_closed (over canceled) fx h = rw h refl
returned_closed (over deadline_exceeded) fx h = rw h refl

-- Steps that nobody outside has to make. A copy reads one connection and writes the other, and may be blocked in
-- either, so it must end only when both have been closed. The parent context need never end.
abbrev pub is_owed : {s t : State} → Step s t → Bool
is_owed {s} (input_copied h) = both_closed s.effects
is_owed {s} (output_copied h) = both_closed s.effects
is_owed (waited h a b) = true
is_owed (parent_ends e h) = false
is_owed (context_done e h l) = true
is_owed (checked h) = true
is_owed (closes_fwd h) = true
is_owed (returns h) = true

abbrev pub IsOwed : State → Type 0
IsOwed s = (t : State) × (st : Step s t) × (is_owed st ≡ true)

-- All four goroutines have ended.
abbrev pub IsOver : State → Type 0
IsOver s = (s.copies_in ≡ false) × (s.copies_out ≡ false) × (s.waits ≡ false) × (s.at ≡ returned)

-- The two sides may still exchange bytes.
abbrev pub IsForwarding : State → Type 0
IsForwarding s =
    (s.context ≡ live) × (s.at ≡ waiting) × ((s.copies_in ≡ true) ⊎ (s.copies_out ≡ true))

abbrev state : Bool → Bool → Bool → Context → At → List Effect → State
state ci co w c a fx = record {
  copies_in = ci;
  copies_out = co;
  waits = w;
  context = c;
  at = a;
  effects = fx;
}

abbrev Goes : State → Type 0
Goes s = IsOver s ⊎ (IsOwed s ⊎ IsForwarding s)

at_rest : (w : Bool) (c : Context) (fx : List Effect) → Goes (state false false w c returned fx)
at_rest true c fx = inr (inl (_, waited refl refl refl, refl))
at_rest false c fx = inl (refl, refl, refl, refl)

at_return :
    (ci co w : Bool) (c : Context) (fx : List Effect)
    → both_closed fx ≡ true
    → Goes (state ci co w c returned fx)
at_return true co w c fx h = inr (inl (_, input_copied refl, h))
at_return false true w c fx h = inr (inl (_, output_copied refl, h))
at_return false false w c fx h = at_rest w c fx

at_wait :
    (ci co w : Bool) (c : Context) (fx : List Effect)
    → IsWaited w c
    → Goes (state ci co w c waiting fx)
at_wait ci co w (over e) fx h = inr (inl (_, context_done e refl refl, refl))
at_wait true co w live fx h = inr (inr (refl, refl, inl refl))
at_wait false true w live fx h = inr (inr (refl, refl, inr refl))
at_wait false false true live fx h = inr (inl (_, waited refl refl refl, refl))
at_wait false false false live fx h = elim h [ ]

keeps_going :
    (ci co w : Bool) (c : Context) (a : At) (fx : List Effect)
    → IsWaited w c
    → IsTrace a c fx
    → Goes (state ci co w c a fx)
keeps_going ci co w c waiting fx h k = at_wait ci co w c fx h
keeps_going ci co w c checking fx h k = inr (inl (_, checked refl, refl))
keeps_going ci co w c closing_fwd fx h k = inr (inl (_, closes_fwd refl, refl))
keeps_going ci co w c closing_conn fx h k = inr (inl (_, returns refl, refl))
keeps_going ci co w c returned fx h k = at_return ci co w c fx (returned_closed c fx k)

-- However the goroutines interleave, and whenever the context of the connection ends, forwarding makes at most eight
-- steps; and in each state that it reaches, either all four goroutines have ended, or one of them can go on
-- by itself, which a copy can for sure only when both of its connections have been closed, or the context is live,
-- `sniffThenHandle` waits for its end, and a copy still runs. So once the context has ended, all of them
-- end.
pub forward-Ends :
    {n : ℕ} {s : State} → Run n s → (n ≤ 8) × (IsOver s ⊎ (IsOwed s ⊎ IsForwarding s))
forward-Ends {s = s} r = (
  omega (arith, Run-rank r),
  keeps_going s.copies_in s.copies_out s.waits s.context s.at s.effects (Run-IsWaited r)
      (Reach-IsTrace (Run-Reach r)),
)
