-- ===== src/Ndt5/Control/Effects.antt =====
-- What every handling of an ndt5 control connection does (ndt5/ndt5.go).
use ndt_server.Common.{
  ℕ, ◌≡◌, refl, ap, ◌∙◌, ◌⊎◌, inl, inr, List, [], ◌∷◌, Option, none, some, map, String, Bytes,
  Error, codes, ℤ, Float, Bool-cases,
}
use ndt_server.Ndt5.C2s
use ndt_server.Ndt5.Control.{
  Ndt5Result, Effect, active_inc, active_dec, record_saved, conn_closed, panic_counted,
  control_counted, duration_observed, test_requested, requests, Server, Run, in_tests, observed,
  of_meta, after_login, no_result, deferred, handle_control_channel,
}
use ndt_server.Ndt5.Panics.{panic_msg_to_err_type}
use ndt_server.Ndt5.Control.Pieces.{Pieces, after_login-HoldsOf}
use ndt_server.Ndt5.Control.Whole.{
  whole, whole-append, IsInner, IsInner-append, map-IsInner, IsLabel, panic_msg_to_err_type-IsLabel,
}
use ndt_server.Ndt5.Suites.{requested}
use ndt_server.Ndt5.Meta
use ndt_server.Ndt5.S2c
use ndt_server.Protocol.Conn.{Conn}
use ndt_server.Protocol.Json.{Json}

module _ (fl : Float) (J : Json) (shown : S2c.Shown fl.F) (trim_space : Bytes → Bytes)
    (panic_message : Bytes → Error → Bytes) where
  open fl use {F, is_zero}

  in_tests-IsInner :
      (d : Bytes) (fx : List C2s.Effect)
      → IsInner (in_tests fl J shown trim_space panic_message d fx)
  unfolding whole
  in_tests-IsInner d [] = refl
  in_tests-IsInner d (x ∷ fx) = in_tests-IsInner d fx

  observed-IsInner :
      (name : Bytes) (e : Option Error) (rate : F)
      → IsInner (observed fl J shown trim_space panic_message name e rate)
  unfolding observed whole
  observed-IsInner name e rate = elim (Bool-cases (is_zero rate)) [
    | inl t ↦ rw t refl
    | inr f ↦ rw f refl
  ]

  of_meta-IsInner :
      (ls : List String) (ns : List ℕ) → IsInner (of_meta fl J shown trim_space panic_message ls ns)
  unfolding whole
  of_meta-IsInner [] [] = refl
  of_meta-IsInner [] (n ∷ ns) = of_meta-IsInner [] ns
  of_meta-IsInner (l ∷ ls) ns = of_meta-IsInner ls ns

  requests-IsInner : (tests : ℤ) → IsInner (requests fl J shown trim_space panic_message tests)
  unfolding whole
  requests-IsInner tests =
      IsInner-append (map test_requested (requested tests)) _ (map-IsInner (requested tests)) refl

  pieces-IsInner : Pieces fl J shown trim_space panic_message IsInner
  unfolding whole
  pieces-IsInner = record {
    nothing = refl;
    both = IsInner-append;
    login_failed = refl;
    no_status = refl;
    asked = requests-IsInner;
    in_c2s = λ s c. in_tests-IsInner (codes "c2s") (C2s.manage_test fl J s c).2;
    in_s2c = λ s c. in_tests-IsInner (codes "s2c") (S2c.manage_test fl J shown s c).2;
    c2s_observed = observed-IsInner (codes "c2s");
    s2c_observed = observed-IsInner (codes "s2c");
    in_meta = λ m e ends c.
        let run = Meta.manage_test trim_space J m e ends c in
        of_meta-IsInner run.errors_counted run.values_observed;
  }

  abbrev IsInnerRun : Run fl J shown trim_space panic_message → Type 0
  IsInnerRun (p, r, c, fx) = IsInner fx

  -- The record is saved and the connection is closed once, in this order, between one increment and one
  -- decrement of the gauge, and the control connection is counted once: as okay, or as a panic, which is
  -- then counted too, under a label that is one of the okay words or `panic`; and then the duration is observed.
  abbrev pub IsWhole : F → List (Effect F) → Type 0
  IsWhole d fx =
      (r : Ndt5Result F) × ((fx
          ≡ active_inc
            ∷ record_saved r
            ∷ conn_closed
            ∷ control_counted (codes "okay")
            ∷ duration_observed d
            ∷ active_dec
            ∷ [])
        ⊎ ((l : Bytes) × IsLabel l
            × (fx
                ≡ active_inc
                  ∷ record_saved r
                  ∷ conn_closed
                  ∷ panic_counted l
                  ∷ control_counted (codes "panic")
                  ∷ duration_observed d
                  ∷ active_dec
                  ∷ [])))

  deferred-IsWhole :
      (d : F) (o : Run fl J shown trim_space panic_message)
      → IsInnerRun o
      → IsWhole d (whole (deferred fl J shown trim_space panic_message d o))
  unfolding whole
  deferred-IsWhole d (none, r, c, fx) h = (r, inl (ap (◌∷◌ active_inc) (whole-append fx _ ∙ rw h)))
  deferred-IsWhole d (some p, r, c, fx) h = (
    r,
    inr (
      panic_msg_to_err_type p,
      panic_msg_to_err_type-IsLabel p,
      ap (◌∷◌ active_inc) (whole-append fx _ ∙ rw h),
    ),
  )

  -- However the handling of a control connection ends, with a failed login, a client without status, a
  -- panic of any test or message, or well: the record is saved and then the connection closed, each once,
  -- between one increment and one decrement of the gauge of active tests; and the connection is counted
  -- once, as okay, or as a panic, which is then counted under one of the okay words or as `panic`, before its duration is
  -- observed.
  pub handle_control_channel-IsWhole :
      (s : Server F) (c : Conn)
      → IsWhole s.duration (whole (handle_control_channel fl J shown trim_space panic_message s c))
  unfolding handle_control_channel
  handle_control_channel-IsWhole s c =
      let r = no_result fl J shown trim_space panic_message in
      deferred-IsWhole s.duration
        (after_login fl J shown trim_space panic_message s r (s.login_ceremony c))
        (after_login-HoldsOf fl J shown trim_space panic_message IsInner pieces-IsInner s r
          (s.login_ceremony c))
