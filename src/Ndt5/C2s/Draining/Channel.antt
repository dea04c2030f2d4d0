-- ===== src/Ndt5/C2s/Draining/Channel.antt =====
-- What the channel of `drainForeverButMeasureFor` holds, by where its goroutines stand (ndt5/c2s/c2s.go).
use ndt_server.Common.{◌≡◌, refl, arith, Option, none, some, Error}
use ndt_server.Ndt5.C2s.Draining.{
  Reader, reading, failed, ended, At, selecting, timed_out, failing, stopped, cancelling, returned,
}
use ndt_server.Web100.{Metrics}

-- The channel holds nothing before the reader has ended, and then its error until it is taken.
abbrev IsLeft : Error → Option Error → Type 0
IsLeft e none = Unit
IsLeft e (some d) = d ≡ e

abbrev pub IsSent : Reader → At → Option Error → Type 0
IsSent reading a c = c ≡ none
IsSent (failed e) a c = c ≡ none
IsSent (ended e) selecting c = c ≡ some e
IsSent (ended e) timed_out c = IsLeft e c
IsSent (ended e) (failing d) c = IsLeft e c
IsSent (ended e) (stopped x) c = IsLeft e c
IsSent (ended e) (cancelling x) c = IsLeft e c
IsSent (ended e) (returned x) c = IsLeft e c

pub IsSent-some : (e : Error) (a : At) → IsSent (ended e) a (some e)
IsSent-some e selecting = refl
IsSent-some e timed_out = refl
IsSent-some e (failing d) = refl
IsSent-some e (stopped x) = refl
IsSent-some e (cancelling x) = refl
IsSent-some e (returned x) = refl

IsLeft-some : (e : Error) (c : Option Error) → c ≡ some e → IsLeft e c
IsLeft-some e none h = tt
IsLeft-some e (some d) h = ground arith

pub IsSent-timeout : (r : Reader) (c : Option Error) → IsSent r selecting c → IsSent r timed_out c
IsSent-timeout reading c h = h
IsSent-timeout (failed e) c h = h
IsSent-timeout (ended e) c h = IsLeft-some e c h

-- The places after the select are alike.
pub IsSent-on :
    (r : Reader) (c : Option Error) (x : Option Metrics × Option Error)
    → IsSent r timed_out c
    → IsSent r (stopped x) c × IsSent r (cancelling x) c × IsSent r (returned x) c
IsSent-on reading c x h = (h, h, h)
IsSent-on (failed e) c x h = (h, h, h)
IsSent-on (ended e) c x h = (h, h, h)

pub IsSent-failing :
    (r : Reader) (e : Error) (c : Option Error) → IsSent r (failing e) c → IsSent r timed_out c
IsSent-failing reading e c h = h
IsSent-failing (failed d) e c h = h
IsSent-failing (ended d) e c h = h

pub IsSent-stopped :
    (r : Reader) (x : Option Metrics × Option Error) (c : Option Error)
    → IsSent r (stopped x) c
    → IsSent r timed_out c
IsSent-stopped reading x c h = h
IsSent-stopped (failed d) x c h = h
IsSent-stopped (ended d) x c h = h

pub IsSent-cancelling :
    (r : Reader) (x : Option Metrics × Option Error) (c : Option Error)
    → IsSent r (cancelling x) c
    → IsSent r timed_out c
IsSent-cancelling reading x c h = h
IsSent-cancelling (failed d) x c h = h
IsSent-cancelling (ended d) x c h = h

pub IsSent-none : (r : Reader) (e : Error) → IsSent r (failing e) none
IsSent-none reading e = refl
IsSent-none (failed d) e = refl
IsSent-none (ended d) e = tt

pub IsSent-ended : (r : Reader) (e : Error) → IsSent r selecting (some e) → r ≡ ended e
IsSent-ended reading e h = ground arith
IsSent-ended (failed d) e h = ground arith
IsSent-ended (ended d) e h = ground arith
