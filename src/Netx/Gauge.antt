-- ===== src/Netx/Gauge.antt =====
-- `CurrentOpenConns` counts the accepted connections that have not been closed.
use ndt_server.Common.{
  ℕ, zero, suc, ◌+◌, ◌<◌, ◌≤◌, ◌≡◌, refl, List, [], ◌∷◌, ◌++◌, Option, none, some, Error, arith,
  if◌then◌else◌, All, All-append,
}
use ndt_server.Netx.{Conn, World, no_conns, new_conn, accept, close, close_in}

pub data Event : Type 0 where
  accepts : Option Error → Option Error → Event
  closes : ℕ → Event

pub step : World → Event → World
step w (accepts tcp dup) = (accept tcp dup w).1
step w (closes i) = close i w

abbrev pub after : World → List Event → World
after w [] = w
after w (e ∷ es) = after (step w e) es

-- The connections on which `Close` has not been called.
abbrev pub open_count : List Conn → ℕ
open_count [] = 0
open_count (c ∷ cs) = (if c.once_done then 0 else 1) + open_count cs

-- Both descriptors of a connection are closed as often, and at all only if its `once` is spent.
abbrev pub IsPaired : Conn → Type 0
IsPaired c =
    (c.fp_closes ≡ c.tcp_closes) × (if c.once_done then 0 < c.tcp_closes else c.tcp_closes ≡ 0)

pub record IsCounted (w : World) : Type 0 where
  pub gauge : w.current_open_conns ≡ open_count w.conns
  pub paired : All IsPaired w.conns

close_in_gauge :
    (i : ℕ) (cs : List Conn) (g : ℕ)
    → open_count cs ≤ g
    → (close_in i cs g).1 + open_count cs ≡ g + open_count (close_in i cs g).0
unfolding close_in
close_in_gauge i [] g h = refl
close_in_gauge zero (c ∷ cs) g h = ground arith
close_in_gauge (suc i) (c ∷ cs) g h = ground (arith, close_in_gauge i cs g)

close_in-IsPaired :
    (i : ℕ) (cs : List Conn) (g : ℕ) → All IsPaired cs → All IsPaired (close_in i cs g).0
unfolding close_in
close_in-IsPaired i [] g h = tt
close_in-IsPaired zero (c ∷ cs) g h = ((omega (arith, h.0.0), omega arith), h.1)
close_in-IsPaired (suc i) (c ∷ cs) g h = (h.0, close_in-IsPaired i cs g h.1)

open_count-append : (cs ds : List Conn) → open_count (cs ++ ds) ≡ open_count cs + open_count ds
open_count-append [] ds = omega arith
open_count-append (c ∷ cs) ds = omega (arith, open_count-append cs ds)

step-IsCounted : (w : World) (e : Event) → IsCounted w → IsCounted (step w e)
unfolding step accept close
step-IsCounted w (accepts (some e) dup) v = v
step-IsCounted w (accepts none (some e)) v = record { gauge = v.gauge; paired = v.paired }
step-IsCounted w (accepts none none) v = record {
  gauge = omega (arith, v.gauge, open_count-append w.conns (new_conn ∷ []));
  paired = All-append IsPaired w.conns (new_conn ∷ []) v.paired ((refl, refl), tt);
}
step-IsCounted w (closes i) v =
    let bound : open_count w.conns ≤ w.current_open_conns = omega (arith, v.gauge) in
    record {
      gauge = omega (arith, v.gauge, close_in_gauge i w.conns w.current_open_conns bound);
      paired = close_in-IsPaired i w.conns w.current_open_conns v.paired;
    }

after-IsCounted : (w : World) (es : List Event) → IsCounted w → IsCounted (after w es)
after-IsCounted w [] v = v
after-IsCounted w (e ∷ es) v = after-IsCounted (step w e) es (step-IsCounted w e v)

-- After any history of accepts, which may fail, and closes, which may be repeated, the gauge is the
-- number of accepted connections that have not been closed, and for each connection both of
-- its descriptors have been closed equally often: not at all exactly when it is open.
pub gauge-IsCounted : (es : List Event) → IsCounted (after no_conns es)
gauge-IsCounted es = after-IsCounted no_conns es (record { gauge = refl; paired = tt })
