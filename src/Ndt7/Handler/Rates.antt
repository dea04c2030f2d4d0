-- ===== src/Ndt7/Handler/Rates.antt =====
-- The rate of a subtest and what is counted for it (ndt7/handler/handler.go, metrics/metrics.go).
use ndt_server.Common.{
  ◌≡◌, refl, Bool, true, false, List, [], ◌∷◌, ◌++◌, Option, none, some, Bytes, Error, codes, ℤ,
  pos, Float, get_last?,
}
use ndt_server.Metrics.{get_result_label, with_err}
use ndt_server.Ndt7.Handler.{test_counted, rate_observed, up_rate, down_rate, count_test}
use ndt_server.Ndt7.Model.{Measurement, TcpSample}
use ndt_server.Ndt7.Spec.{SubtestKind}

-- A list whose last element is added: `get_last?` gives it.
get_last?-append : {A : Type 0} (xs : List A) (x : A) → get_last? (xs ++ x ∷ []) ≡ some x
get_last?-append [] x = refl
get_last?-append (y ∷ []) x = refl
get_last?-append (y ∷ z ∷ xs) x = get_last?-append (z ∷ xs) x

module _ (fl : Float) where
  open fl use {F, of_int, mul, div, is_zero, is_positive, zero_is_zero, zero_not_positive}

  abbrev pub mbps : ℤ → ℤ → F
  mbps bytes elapsed = div (mul (of_int (pos 8)) (of_int bytes)) (of_int elapsed)

  -- A subtest that measured nothing, or whose last measurement is without TCP information: it is
  -- counted without a rate, in both directions, and no rate is observed.
  pub count_test_without_rate :
      (kind : SubtestKind) (proto : Bytes) (mon : Bool) (e : Option Error) (ms : List Measurement)
      (m : Measurement)
      → m.tcp_info ≡ none
      → (count_test fl kind proto mon e (down_rate fl [])
          ≡ test_counted proto kind (with_err e ++ codes "-without-rate") ∷ [])
        × (count_test fl kind proto mon e (down_rate fl (ms ++ m ∷ []))
            ≡ test_counted proto kind (with_err e ++ codes "-without-rate") ∷ [])
        × (count_test fl kind proto mon e (up_rate fl (ms ++ m ∷ []))
            ≡ test_counted proto kind (with_err e ++ codes "-without-rate") ∷ [])
  unfolding count_test down_rate up_rate get_result_label
  count_test_without_rate kind proto mon e ms m h = (
    rw (zero_is_zero, zero_not_positive),
    rw (get_last?-append ms m, h, zero_is_zero, zero_not_positive),
    rw (get_last?-append ms m, h, zero_is_zero, zero_not_positive),
  )

  -- A download whose last measurement has a rate that is positive, and not zero, is counted with a rate,
  -- and this rate is observed: the acknowledged bytes of that measurement times 8 by its elapsed time.
  pub count_test_with_rate :
      (kind : SubtestKind) (proto : Bytes) (mon : Bool) (e : Option Error) (ms : List Measurement)
      (m : Measurement) (t : TcpSample)
      → m.tcp_info ≡ some t
      → is_zero (mbps t.linux_tcp_info.bytes_acked t.elapsed_time) ≡ false
      → is_positive (mbps t.linux_tcp_info.bytes_acked t.elapsed_time) ≡ true
      → count_test fl kind proto mon e (down_rate fl (ms ++ m ∷ []))
        ≡ test_counted proto kind (with_err e ++ codes "-with-rate")
          ∷ rate_observed proto kind mon (mbps t.linux_tcp_info.bytes_acked t.elapsed_time)
          ∷ []
  unfolding count_test down_rate get_result_label
  count_test_with_rate kind proto mon e ms m t h z q = rw (get_last?-append ms m, h, z, q)
