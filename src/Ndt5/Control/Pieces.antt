-- ===== src/Ndt5/Control/Pieces.antt =====
-- A property of lists of effects that holds of the pieces that the handling of a control connection puts
-- together holds of what it does up to its deferred calls (ndt5/ndt5.go).
use ndt_server.Common.{
  ℕ, Bool, true, false, List, [], ◌∷◌, ◌++◌, Option, none, some, Bytes, Error, codes, ok, err, ℤ,
  Float, Bool-cases, inl, inr,
}
use ndt_server.Ndt5.C2s
use ndt_server.Ndt5.Control.{
  Ndt5Result, Effect, client_test_error, requests, Server, Run, and_then, send, in_tests, observed,
  after_c2s, after_s2c, of_meta, run_c2s, run_s2c, run_meta, run_tests, with_messager, after_login,
}
use ndt_server.Ndt5.Login.{Login, logged, login_panicked}
use ndt_server.Ndt5.Meta
use ndt_server.Ndt5.S2c
use ndt_server.Ndt5.Suites.{has_bit}
use ndt_server.Protocol.Conn.{Conn}
use ndt_server.Protocol.Json.{Json}
use ndt_server.Protocol.Kind.{srv_queue, msg_login, msg_results, msg_logout}
use ndt_server.Protocol.Messager.{Messager, conn_messager}

module _ (fl : Float) (J : Json) (shown : S2c.Shown fl.F) (trim_space : Bytes → Bytes)
    (panic_message : Bytes → Error → Bytes) where
  open fl use {F}

  pub record Pieces (P : List (Effect F) → Type 0) : Type 0 where
    pub nothing : P []
    pub both : (xs ys : List (Effect F)) → P xs → P ys → P (xs ++ ys)
    pub login_failed : P (client_test_error (codes "control") (codes "LoginCeremony") ∷ [])
    pub no_status : P (client_test_error (codes "control") (codes "TestStatus") ∷ [])
    pub asked : (tests : ℤ) → P (requests fl J shown trim_space panic_message tests)
    pub in_c2s :
        (s : C2s.Session F) (c : Conn)
        → P (
            in_tests fl J shown trim_space panic_message (codes "c2s") (C2s.manage_test fl J s c).2)
    pub in_s2c :
        (s : S2c.Session F) (c : Conn)
        → P (
            in_tests fl J shown trim_space panic_message
              (codes "s2c")
              (S2c.manage_test fl J shown s c).2)
    pub c2s_observed :
        (e : Option Error) (rate : F)
        → P (observed fl J shown trim_space panic_message (codes "c2s") e rate)
    pub s2c_observed :
        (e : Option Error) (rate : F)
        → P (observed fl J shown trim_space panic_message (codes "s2c") e rate)
    pub in_meta :
        (m : Messager) (e : Error) (ends : List Bool) (c : Conn)
        → let run = Meta.manage_test trim_space J m e ends c in
          P (of_meta fl J shown trim_space panic_message run.errors_counted run.values_observed)

  module _ (P : List (Effect F) → Type 0) (pieces : Pieces P) where
    abbrev HoldsOf : Run fl J shown trim_space panic_message → Type 0
    HoldsOf (p, r, c, fx) = P fx

    and_then-HoldsOf :
        (o : Run fl J shown trim_space panic_message)
        (k : Ndt5Result F → Conn → Run fl J shown trim_space panic_message)
        → HoldsOf o
        → ((r : Ndt5Result F) (c : Conn) → HoldsOf (k r c))
        → HoldsOf (and_then fl J shown trim_space panic_message o k)
    unfolding and_then
    and_then-HoldsOf (some p, r, c, fx) k h g = h
    and_then-HoldsOf (none, r, c, fx) k h g = pieces.both fx _ h (g r c)

    send-HoldsOf :
        (m : Messager) (kind : ℕ) (b prefix : Bytes) (r : Ndt5Result F) (c : Conn)
        → HoldsOf (send fl J shown trim_space panic_message m kind b prefix r c)
    unfolding send
    send-HoldsOf m kind b prefix r c = pieces.nothing

    after_c2s-HoldsOf :
        (r : Ndt5Result F) (o : C2s.Run fl J)
        → P (in_tests fl J shown trim_space panic_message (codes "c2s") o.2)
        → HoldsOf (after_c2s fl J shown trim_space panic_message r o)
    after_c2s-HoldsOf r (C2s.panicked, c, fx) h = h
    after_c2s-HoldsOf r (C2s.returned d e, c, fx) h =
        pieces.both _ _ h (pieces.c2s_observed e d.mean_throughput_mbps)

    after_s2c-HoldsOf :
        (r : Ndt5Result F) (o : S2c.Run fl J shown)
        → P (in_tests fl J shown trim_space panic_message (codes "s2c") o.2)
        → HoldsOf (after_s2c fl J shown trim_space panic_message r o)
    after_s2c-HoldsOf r (S2c.panicked, c, fx) h = h
    after_s2c-HoldsOf r (S2c.returned d e, c, fx) h =
        pieces.both _ _ h (pieces.s2c_observed e d.mean_throughput_mbps)

    run_c2s-HoldsOf :
        (s : Server F) (b : Bool) (r : Ndt5Result F) (c : Conn)
        → HoldsOf (run_c2s fl J shown trim_space panic_message s b r c)
    unfolding run_c2s
    run_c2s-HoldsOf s false r c = pieces.nothing
    run_c2s-HoldsOf s true r c = after_c2s-HoldsOf r _ (pieces.in_c2s s.c2s_session c)

    run_s2c-HoldsOf :
        (s : Server F) (b : Bool) (r : Ndt5Result F) (c : Conn)
        → HoldsOf (run_s2c fl J shown trim_space panic_message s b r c)
    unfolding run_s2c
    run_s2c-HoldsOf s false r c = pieces.nothing
    run_s2c-HoldsOf s true r c = after_s2c-HoldsOf r _ (pieces.in_s2c s.s2c_session c)

    run_meta-HoldsOf :
        (m : Messager) (s : Server F) (b : Bool) (r : Ndt5Result F) (c : Conn)
        → HoldsOf (run_meta fl J shown trim_space panic_message m s b r c)
    unfolding run_meta
    run_meta-HoldsOf m s false r c = pieces.nothing
    run_meta-HoldsOf m s true r c = pieces.in_meta m s.context_error s.meta_ends c

    run_tests-HoldsOf :
        (m : Messager) (s : Server F) (tests : ℤ) (r : Ndt5Result F) (c : Conn)
        → HoldsOf (run_tests fl J shown trim_space panic_message m s tests r c)
    unfolding run_tests
    run_tests-HoldsOf m s tests r c =
        and_then-HoldsOf _ _ (send-HoldsOf m srv_queue _ _ r c) (λ r1 c1.
          and_then-HoldsOf _ _ (send-HoldsOf m msg_login _ _ r1 c1) (λ r2 c2.
            and_then-HoldsOf _ _ (send-HoldsOf m msg_login _ _ r2 c2) (λ r3 c3.
              and_then-HoldsOf _ _ (run_c2s-HoldsOf s (has_bit 1 tests) r3 c3) (λ r4 c4.
                and_then-HoldsOf _ _ (run_s2c-HoldsOf s (has_bit 2 tests) r4 c4) (λ r5 c5.
                  and_then-HoldsOf _ _ (run_meta-HoldsOf m s (has_bit 5 tests) r5 c5) (λ r6 c6.
                    and_then-HoldsOf _ _ (send-HoldsOf m msg_results _ _ r6 c6)
                      (λ r7 c7. send-HoldsOf m msg_logout _ _ r7 c7)))))))

    with_messager-HoldsOf :
        (s : Server F) (tests : ℤ) (r : Ndt5Result F) (c : Conn) (o : Option Messager)
        → HoldsOf (with_messager fl J shown trim_space panic_message s tests r c o)
    unfolding with_messager
    with_messager-HoldsOf s tests r c none = pieces.asked tests
    with_messager-HoldsOf s tests r c (some m) =
        pieces.both _ _ (pieces.asked tests) (run_tests-HoldsOf m s tests _ c)

    pub after_login-HoldsOf :
        (s : Server F) (r : Ndt5Result F) (o : Login × Conn)
        → HoldsOf (after_login fl J shown trim_space panic_message s r o)
    unfolding after_login
    after_login-HoldsOf s r (login_panicked, c) = pieces.nothing
    after_login-HoldsOf s r (logged (err e), c) = pieces.login_failed
    after_login-HoldsOf s r (logged (ok tests), c) = elim (Bool-cases (has_bit 4 tests)) [
      | inl t ↦ rw t (with_messager-HoldsOf s tests r c (conn_messager c))
      | inr f ↦ rw f pieces.no_status
    ]
