-- ===== src/Ndt5/Meta/Labels.antt =====
-- The labels under which the meta test counts its errors (ndt5/meta/meta.go).
use ndt_server.Common.{
  ◌≡◌, refl, Bool, true, false, List, [], ◌∷◌, Option, none, some, Bytes, Error, codes, ℕ, All,
  equal, String,
}
use ndt_server.Ndt5.Meta.{
  Run, State, after_loop, without_error, finished, after_start, after_prepare, manage_test,
}
use ndt_server.Ndt5.Panics.{is_in}
use ndt_server.Ndt7.Model.{NameValue}
use ndt_server.Protocol.Conn.{Conn}
use ndt_server.Protocol.Json.{Json}
use ndt_server.Protocol.Kind.{test_prepare, test_start, test_finalize}
use ndt_server.Protocol.Messager.{Messager, send_message}

abbrev pub labels : List Bytes
labels =
    codes "TestPrepare"
    ∷ codes "TestStart"
    ∷ codes "context"
    ∷ codes "ReceiveMessage"
    ∷ codes "TestFinalize"
    ∷ []

abbrev pub IsNamed : String → Type 0
IsNamed l = is_in (codes l) labels ≡ true

module _ (trim_space : Bytes → Bytes) (J : Json) (m : Messager) where
  abbrev AreNamed : Run → Type 0
  AreNamed run = All IsNamed run.errors_counted

  finished-AreNamed :
      (rs : List NameValue) (n : ℕ) (o : Option Error × Conn)
      → AreNamed (finished trim_space J m rs n o)
  unfolding equal
  finished-AreNamed rs n (some e, c) = (refl, tt)
  finished-AreNamed rs n (none, c) = tt

  without_error-AreNamed :
      (e : Option Error) (s : State) → AreNamed (without_error trim_space J m e s)
  unfolding equal
  without_error-AreNamed (some e) s = (refl, tt)
  without_error-AreNamed none s =
      finished-AreNamed s.results s.count (send_message J m test_finalize [] s.conn)

  after_loop-AreNamed :
      (e : Error) (o : State × List Bool) → AreNamed (after_loop trim_space J m e o)
  unfolding after_loop equal
  after_loop-AreNamed e (s, true ∷ ends) = (refl, tt)
  after_loop-AreNamed e (s, false ∷ ends) = without_error-AreNamed s.error s
  after_loop-AreNamed e (s, []) = without_error-AreNamed s.error s

  after_start-AreNamed :
      (e : Error) (ends : List Bool) (o : Option Error × Conn)
      → AreNamed (after_start trim_space J m e ends o)
  unfolding equal
  after_start-AreNamed e ends (some x, c) = (refl, tt)
  after_start-AreNamed e ends (none, c) = after_loop-AreNamed e _

  after_prepare-AreNamed :
      (e : Error) (ends : List Bool) (o : Option Error × Conn)
      → AreNamed (after_prepare trim_space J m e ends o)
  unfolding equal
  after_prepare-AreNamed e ends (some x, c) = (refl, tt)
  after_prepare-AreNamed e ends (none, c) =
      after_start-AreNamed e ends (send_message J m test_start [] c)

  pub manage_test-AreNamed :
      (e : Error) (ends : List Bool) (c : Conn)
      → All IsNamed (manage_test trim_space J m e ends c).errors_counted
  unfolding manage_test
  manage_test-AreNamed e ends c = after_prepare-AreNamed e ends (send_message J m test_prepare [] c)
