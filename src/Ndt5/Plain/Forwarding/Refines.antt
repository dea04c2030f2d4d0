-- ===== src/Ndt5/Plain/Forwarding/Refines.antt =====
-- What forwarding a client has done when it returns is what `Ndt5.Plain` says of it (ndt5/plain/plain.go).
use ndt_server.Common.{◌≡◌, refl, ap, ◌∙◌, List, [], ◌∷◌, ◌++◌, none, append_assoc}
use ndt_server.Ndt5.Plain
use ndt_server.Ndt5.Plain.Forwarding.{
  Context, live, over, end_context, At, waiting, checking, closing_fwd, closing_conn, returned,
  Effect, timeout_counted, fwd_closed, conn_closed, State, count_timeout, Step, input_copied,
  output_copied, waited, parent_ends, context_done, checked, closes_fwd, returns, Reach, start,
  later,
}
use ndt_server.Ndt5.Plain.{ContextEnd, canceled, deadline_exceeded, forward}
use ndt_server.Protocol.Conn.{Chunk}

-- What has been done at each place, by how the context has ended.
abbrev pub IsTrace : At → Context → List Effect → Type 0
IsTrace waiting c fx = fx ≡ []
IsTrace checking live fx = ⊥
IsTrace checking (over e) fx = fx ≡ []
IsTrace closing_fwd live fx = ⊥
IsTrace closing_fwd (over e) fx = fx ≡ count_timeout (over e)
IsTrace closing_conn live fx = ⊥
IsTrace closing_conn (over e) fx = fx ≡ count_timeout (over e) ++ fwd_closed ∷ []
IsTrace returned live fx = ⊥
IsTrace returned (over e) fx = fx ≡ count_timeout (over e) ++ fwd_closed ∷ conn_closed ∷ []

-- Before the context has ended nothing has been done, so its end changes nothing.
live-IsTrace :
    (a : At) (e : ContextEnd) (fx : List Effect) → IsTrace a live fx → IsTrace a (over e) fx
live-IsTrace waiting e fx h = h
live-IsTrace checking e fx h = elim h [ ]
live-IsTrace closing_fwd e fx h = elim h [ ]
live-IsTrace closing_conn e fx h = elim h [ ]
live-IsTrace returned e fx h = elim h [ ]

end_context-IsTrace :
    (a : At) (c : Context) (fx : List Effect)
    → IsTrace a c fx
    → IsTrace a (end_context canceled c) fx
end_context-IsTrace a live fx h = live-IsTrace a canceled fx h
end_context-IsTrace a (over e) fx h = h

checked-IsTrace :
    (c : Context) (fx : List Effect)
    → IsTrace checking c fx
    → IsTrace closing_fwd c (fx ++ count_timeout c)
checked-IsTrace live fx h = h
checked-IsTrace (over e) fx h = rw h refl

closes-IsTrace :
    (c : Context) (fx : List Effect)
    → IsTrace closing_fwd c fx
    → IsTrace closing_conn c (fx ++ fwd_closed ∷ [])
closes-IsTrace live fx h = h
closes-IsTrace (over e) fx h = rw h refl

returns-IsTrace :
    (c : Context) (fx : List Effect)
    → IsTrace closing_conn c fx
    → IsTrace returned (end_context canceled c) (fx ++ conn_closed ∷ [])
returns-IsTrace live fx h = elim h [ ]
returns-IsTrace (over e) fx h = rw h (append_assoc (count_timeout (over e)) _ _)

Step-IsTrace :
    {s t : State} → Step s t → IsTrace s.at s.context s.effects → IsTrace t.at t.context t.effects
Step-IsTrace (input_copied h) k = k
Step-IsTrace (output_copied h) k = k
Step-IsTrace {s} (waited h a b) k = end_context-IsTrace s.at s.context s.effects k
Step-IsTrace {s} (parent_ends e h) k = live-IsTrace s.at e s.effects (rw h at k)
Step-IsTrace {s} (context_done e h l) k = rw l (rw h at k)
Step-IsTrace {s} (checked h) k = checked-IsTrace s.context s.effects (rw h at k)
Step-IsTrace {s} (closes_fwd h) k = closes-IsTrace s.context s.effects (rw h at k)
Step-IsTrace {s} (returns h) k = returns-IsTrace s.context s.effects (rw h at k)

pub Reach-IsTrace : {s : State} → Reach s → IsTrace s.at s.context s.effects
Reach-IsTrace start = refl
Reach-IsTrace (later r st) = Step-IsTrace st (Reach-IsTrace r)

-- The effects in the words of `Ndt5.Plain`.
abbrev pub as_plain : {F : Type 0} → List Effect → List (Plain.Effect F)
as_plain [] = []
as_plain (timeout_counted ∷ fx) = Plain.timeout_counted ∷ as_plain fx
as_plain (fwd_closed ∷ fx) = Plain.fwd_closed ∷ as_plain fx
as_plain (conn_closed ∷ fx) = Plain.conn_closed ∷ as_plain fx

forwarded_as :
    (F : Type 0) (input : List Chunk) (e : ContextEnd)
    → Plain.forwarded input
        ∷ as_plain {F = F} (count_timeout (over e) ++ fwd_closed ∷ conn_closed ∷ [])
      ≡ forward input e none ++ Plain.conn_closed ∷ []
unfolding forward
forwarded_as F input canceled = refl
forwarded_as F input deadline_exceeded = refl

returned-IsTrace :
    (c : Context) (fx : List Effect)
    → IsTrace returned c fx
    → (e : ContextEnd) × (c ≡ over e)
      × (fx ≡ count_timeout (over e) ++ fwd_closed ∷ conn_closed ∷ [])
returned-IsTrace live fx h = elim h [ ]
returned-IsTrace (over e) fx h = (e, refl, h)

-- However its goroutines have interleaved, when forwarding has returned, its context has ended, and with that end of the
-- context it has done what the model of `sniffThenHandle` says, in the same order: the timeout is counted exactly if
-- the deadline has passed, and then the forwarded connection and the client's are closed, each once.
pub Reach-forward :
    (F : Type 0) (input : List Chunk) {s : State}
    → Reach s
    → s.at ≡ returned
    → (e : ContextEnd) × (s.context ≡ over e)
      × (Plain.forwarded input ∷ as_plain {F = F} s.effects
          ≡ forward input e none ++ Plain.conn_closed ∷ [])
Reach-forward F input {s} r h =
    let (e, ended, trace) = returned-IsTrace s.context s.effects (rw h at (Reach-IsTrace r)) in
    (
      e,
      ended,
      ap (λ fx. Plain.forwarded input ∷ as_plain {F = F} fx) trace ∙ forwarded_as F input e,
    )
