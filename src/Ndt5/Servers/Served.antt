-- ===== src/Ndt5/Servers/Served.antt =====
-- What a single-serving server gives to the tests, composed with the tests (ndt5/singleserving/server.go,
-- ndt5/c2s/c2s.go, ndt5/s2c/s2c.go).
use ndt_server.Common.{
  ◌≡◌, refl, ap, ◌∙◌, ◌⊎◌, inl, inr, List, Option, none, some, Bytes, Error, Result, ok, err, Float,
  [],
}
use ndt_server.Ndt5.C2s.{TestConn}
use ndt_server.Ndt5.S2c.{Session, Shown, fail, no_record, after_serve}
use ndt_server.Ndt5.SingleServing.Answers.{IsIn, IsAnswer, IsSoundAt}
use ndt_server.Ndt5.SingleServing.Once.{Reach-Inv}
use ndt_server.Ndt5.SingleServing.{ConnectionType, WsServer, returned, Reach}
use ndt_server.Protocol.Conn.{Conn}
use ndt_server.Protocol.Json.{Json}
use ndt_server.Protocol.Messager.{Messager}

-- The two values that `ServeOnce` returns, as the tests look at them: first at the error.
unfoldable pub to_served : {C : Type 0} → Option C → Option Error → Result (Option C)
to_served c (some e) = err e
to_served c none = ok c

-- An error, or a connection that a handler has upgraded.
abbrev IsGiven : {C : Type 0} → List C → Result (Option C) → Option Error → Type 0
IsGiven {C} up r e =
    ((x : Error) × (e ≡ some x) × (r ≡ err x)) ⊎ ((t : C) × IsIn t up × (r ≡ ok (some t)))

IsAnswer-to_served :
    {C : Type 0} (up : List C) (c : Option C) (e : Option Error)
    → IsAnswer up c e
    → IsGiven up (to_served c e) e
unfolding to_served
IsAnswer-to_served up c (some x) h = inl (x, refl, refl)
IsAnswer-to_served up none none h = elim h [ ]
IsAnswer-to_served up (some t) none h = inr (t, h, refl)

Reach-to_served :
    {C : Type 0} {k : ConnectionType} {d : Bytes} {s : WsServer C} (c : Option C) (e : Option Error)
    → Reach k d s
    → s.at ≡ returned c e
    → IsGiven s.upgraded (to_served c e) e
Reach-to_served {s = s} c e r h =
    let sound : IsSoundAt s.upgraded s.new_conn s.new_conn_err s.once_done (returned c e) =
      rw h at (Reach-Inv r).sound_at in
    IsAnswer-to_served s.upgraded c e sound.0

module _ (fl : Float) (J : Json) (shown : Shown fl.F) where
  open fl use {F}

  -- The download test with a websocket server of its own, however the goroutines of the server have interleaved: when
  -- `ServeOnce` has returned, the test ends with the server's error, without a record of a connection, or goes on over a
  -- connection that a handler of this server has upgraded. It never meets a nil connection without an error.
  pub after_serve-served :
      {k : ConnectionType} {d : Bytes} {server : WsServer TestConn} (t : Option TestConn)
      (e : Option Error) (m : Messager) (s : Session F) (c : Conn)
      → Reach k d server
      → server.at ≡ returned t e
      → ((x : Error) × (e ≡ some x)
          × (after_serve fl J shown m s c (to_served t e)
              ≡ fail fl J shown "ServeOnce" x (no_record fl J shown) c []))
        ⊎ ((u : TestConn) × IsIn u server.upgraded
            × (after_serve fl J shown m s c (to_served t e)
                ≡ after_serve fl J shown m s c (ok (some u))))
  after_serve-served t e m s c r h = elim (Reach-to_served t e r h) [
    | inl (x, p, q) ↦ inl (x, p, ap (after_serve fl J shown m s c) q ∙ unfold after_serve in refl)
    | inr (u, p, q) ↦ inr (u, p, ap (after_serve fl J shown m s c) q)
  ]
