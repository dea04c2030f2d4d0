-- ===== src/Ndt5/Control/Labels.antt =====
-- The metrics that the handling of a control connection updates, and their label values
-- (ndt5/ndt5.go, ndt5/metrics/metrics.go).
use ndt_server.Common.{
  ℕ, ◌≡◌, refl, inl, inr, true, List, [], ◌∷◌, map, Option, none, some, String, Bytes, Error, codes,
  ℤ, Float, All, Bool-cases, equal,
}
use ndt_server.Metrics.{get_result_label}
use ndt_server.Ndt5.C2s
use ndt_server.Ndt5.C2s.Labels as C2sLabels
use ndt_server.Ndt5.Control.Pieces.{Pieces, after_login-HoldsOf}
use ndt_server.Ndt5.Control.Whole.{panic_msg_to_err_type-IsLabel}
use ndt_server.Ndt5.Control.{
  test_requested, Server, Run, in_tests, observed, of_meta, requests, recovered, deferred,
  no_result, after_login, handle_control_channel,
}
use ndt_server.Ndt5.Labels.{
  updates, all_updates, directions, client_errors, results, label_names, IsLabelled,
}
use ndt_server.Ndt5.Meta
use ndt_server.Ndt5.Meta.Labels as MetaLabels
use ndt_server.Ndt5.Panics.{is_in}
use ndt_server.Ndt5.S2c
use ndt_server.Ndt5.S2c.Labels as S2cLabels
use ndt_server.Ndt5.Suites.{requested}
use ndt_server.Protocol.Conn.{Conn}
use ndt_server.Protocol.Json.{Json}
use ndt_server.Ndt5.Labels.Selections.{
  AreLabelled, AreLabelled-append, requested-IsSelection, All-selection, is_in_subset,
  suites_allowed, requested-AreLabelled,
}

module _ (fl : Float) (J : Json) (shown : S2c.Shown fl.F) (trim_space : Bytes → Bytes)
    (panic_message : Bytes → Error → Bytes) (proto mon : Bytes) where
  open fl use {F, is_zero}

  requests-AreLabelled :
      (tests : ℤ)
      → AreLabelled {F = F} proto mon (requests fl J shown trim_space panic_message tests)
  unfolding all_updates updates label_names equal
  requests-AreLabelled tests =
      AreLabelled-append proto mon (map test_requested (requested tests)) _
        (requested-AreLabelled F proto mon (requested tests) (
          All-selection (λ w. is_in w directions ≡ true) (requested-IsSelection tests)
            (refl, (refl, (refl, (refl, (refl, tt)))))))
        ((refl, (suites_allowed tests, tt)), tt)

  in_tests-AreLabelled :
      (d : Bytes) (names : List Bytes)
      → is_in d directions ≡ true
      → All (λ x. is_in x client_errors ≡ true) names
      → (fx : List C2s.Effect) → All (C2sLabels.IsNamed names) fx
      → AreLabelled {F = F} proto mon (in_tests fl J shown trim_space panic_message d fx)
  unfolding all_updates updates label_names
  in_tests-AreLabelled d names e n [] h = tt
  in_tests-AreLabelled d names e n (C2s.error_counted l ∷ fx) h = (
    (refl, (e, (inl (is_in_subset names client_errors (codes l) n h.0), tt))),
    in_tests-AreLabelled d names e n fx h.1,
  )
  in_tests-AreLabelled d names e n (C2s.test_conn_closed ∷ fx) h =
      in_tests-AreLabelled d names e n fx h.1

  meta_known : All (λ x. is_in x client_errors ≡ true) MetaLabels.labels
  unfolding equal
  meta_known = (refl, (refl, (refl, (refl, (refl, tt)))))

  of_meta-AreLabelled :
      (ls : List String) (ns : List ℕ)
      → All MetaLabels.IsNamed ls
      → AreLabelled {F = F} proto mon (of_meta fl J shown trim_space panic_message ls ns)
  unfolding all_updates updates label_names equal
  of_meta-AreLabelled [] [] h = tt
  of_meta-AreLabelled [] (n ∷ ns) h = (tt, of_meta-AreLabelled [] ns tt)
  of_meta-AreLabelled (l ∷ ls) ns h = (
    (
      refl,
      (refl, (inl (is_in_subset MetaLabels.labels client_errors (codes l) meta_known h.0), tt)),
    ),
    of_meta-AreLabelled ls ns h.1,
  )

  get_result_label_known :
      (e : Option Error) (rate : F) → is_in (get_result_label fl e rate) results ≡ true
  unfolding get_result_label equal
  get_result_label_known none rate = elim (Bool-cases (is_zero rate)) [
    | inl t ↦ rw t refl
    | inr f ↦ rw f refl
  ]
  get_result_label_known (some e) rate = elim (Bool-cases (is_zero rate)) [
    | inl t ↦ rw t refl
    | inr f ↦ rw f refl
  ]

  observed-AreLabelled :
      (d : Bytes) (e : Option Error) (rate : F)
      → is_in d directions ≡ true
      → AreLabelled proto mon (observed fl J shown trim_space panic_message d e rate)
  unfolding observed all_updates updates label_names
  observed-AreLabelled d e rate h =
      let counted = get_result_label_known e rate in
      elim (Bool-cases (is_zero rate)) [
        | inl t ↦ rw t ((refl, (h, (counted, tt))), tt)
        | inr f ↦ rw f ((refl, (h, (refl, tt))), ((refl, (h, (counted, tt))), tt))
      ]

  c2s_known : All (λ x. is_in x client_errors ≡ true) C2sLabels.labels
  unfolding equal
  c2s_known = (refl, (refl, (refl, (refl, (refl, (refl, (refl, (refl, tt))))))))

  s2c_known : All (λ x. is_in x client_errors ≡ true) S2cLabels.labels
  unfolding equal
  s2c_known = (refl, (refl, (refl, (refl, (refl, (refl, (refl, (refl, (refl, (refl, tt))))))))))

  pieces-AreLabelled : Pieces fl J shown trim_space panic_message (AreLabelled proto mon)
  unfolding all_updates updates label_names equal
  pieces-AreLabelled = record {
    nothing = tt;
    both = AreLabelled-append proto mon;
    login_failed = ((refl, (refl, (inl refl, tt))), tt);
    no_status = ((refl, (refl, (inl refl, tt))), tt);
    asked = requests-AreLabelled;
    in_c2s = λ s c.
        in_tests-AreLabelled (codes "c2s") C2sLabels.labels refl c2s_known
          (C2s.manage_test fl J s c).2 (C2sLabels.manage_test-AreNamed fl J s c);
    in_s2c = λ s c.
        in_tests-AreLabelled (codes "s2c") S2cLabels.labels refl s2c_known
          (S2c.manage_test fl J shown s c).2 (S2cLabels.manage_test-AreNamed fl J shown s c);
    c2s_observed = λ e rate. observed-AreLabelled (codes "c2s") e rate refl;
    s2c_observed = λ e rate. observed-AreLabelled (codes "s2c") e rate refl;
    in_meta = λ m e ends c.
        let run = Meta.manage_test trim_space J m e ends c in
        of_meta-AreLabelled run.errors_counted run.values_observed
          (MetaLabels.manage_test-AreNamed trim_space J m e ends c);
  }

  recovered-AreLabelled :
      (p : Option Bytes)
      → AreLabelled {F = F} proto mon (recovered fl J shown trim_space panic_message p)
  unfolding all_updates updates label_names equal
  recovered-AreLabelled none = ((refl, (refl, tt)), tt)
  recovered-AreLabelled (some p) =
      ((refl, (inr (panic_msg_to_err_type-IsLabel p), tt)), ((refl, (refl, tt)), tt))

  abbrev HasLabels : Run fl J shown trim_space panic_message → Type 0
  HasLabels (p, r, c, fx) = AreLabelled proto mon fx

  deferred-AreLabelled :
      (d : F) (o : Run fl J shown trim_space panic_message)
      → HasLabels o
      → AreLabelled proto mon (deferred fl J shown trim_space panic_message d o)
  unfolding all_updates updates label_names
  deferred-AreLabelled d (p, r, c, fx) h = (
    (refl, tt),
    AreLabelled-append proto mon fx _ h (
        AreLabelled-append proto mon (recovered fl J shown trim_space panic_message p) _
          (recovered-AreLabelled p) ((refl, tt), ((refl, tt), tt))),
  )

  -- Whatever a client sends and however the handling of its control connection ends: each update of a
  -- metric that the control channel and its tests make themselves, which leaves out the counters of the
  -- single-serving servers that the tests start, has as many values as the metric has declared labels, so that `WithLabelValues` does not panic; and
  -- each value is one of finitely many, for a connection type and a value of `isMon`: the protocol is that
  -- of the connection type, the direction, error and result are known words, and the suite is `status` with a selection of
  -- the five optional names in their order.
  pub handle_control_channel-AreLabelled :
      (s : Server F) (c : Conn)
      → All
          (IsLabelled proto mon)
          (all_updates proto mon (handle_control_channel fl J shown trim_space panic_message s c))
  unfolding handle_control_channel
  handle_control_channel-AreLabelled s c =
      deferred-AreLabelled s.duration
        (after_login fl J shown trim_space panic_message s
          (no_result fl J shown trim_space panic_message) (s.login_ceremony c))
        (after_login-HoldsOf fl J shown trim_space panic_message (AreLabelled proto mon)
          pieces-AreLabelled s (no_result fl J shown trim_space panic_message) (s.login_ceremony c))
