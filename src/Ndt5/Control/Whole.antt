-- ===== src/Ndt5/Control/Whole.antt =====
-- The effects of a control connection that belong to it as a whole, and the labels of its panics (ndt5/ndt5.go).
use ndt_server.Common.{
  ◌≡◌, refl, ap, map, ◌∙◌, ◌⊎◌, inl, inr, true, List, [], ◌∷◌, ◌++◌, Bytes, codes, Bool-cases,
}
use ndt_server.Ndt5.Control.{
  Effect, active_inc, active_dec, client_test_error, suites_requested, rate_observed,
  result_counted, in_test, meta_error, meta_values_observed, record_saved, conn_closed,
  panic_counted, control_counted, test_requested, duration_observed,
}
use ndt_server.Ndt5.Panics.{first_word, okay_words, is_in, panic_msg_to_err_type}

-- The effects that belong to the connection as a whole.
unfoldable pub whole : {F : Type 0} → List (Effect F) → List (Effect F)
whole [] = []
whole (active_inc ∷ fx) = active_inc ∷ whole fx
whole (active_dec ∷ fx) = active_dec ∷ whole fx
whole (client_test_error d l ∷ fx) = whole fx
whole (test_requested b ∷ fx) = whole fx
whole (suites_requested b ∷ fx) = whole fx
whole (rate_observed n x ∷ fx) = whole fx
whole (result_counted n l ∷ fx) = whole fx
whole (in_test d x ∷ fx) = whole fx
whole (meta_error l ∷ fx) = whole fx
whole (meta_values_observed n ∷ fx) = whole fx
whole (record_saved r ∷ fx) = record_saved r ∷ whole fx
whole (conn_closed ∷ fx) = conn_closed ∷ whole fx
whole (panic_counted l ∷ fx) = panic_counted l ∷ whole fx
whole (control_counted l ∷ fx) = control_counted l ∷ whole fx
whole (duration_observed d ∷ fx) = duration_observed d ∷ whole fx

pub whole-append : {F : Type 0} (xs ys : List (Effect F)) → whole (xs ++ ys) ≡ whole xs ++ whole ys
unfolding whole
whole-append [] ys = refl
whole-append (active_inc ∷ xs) ys = ap (◌∷◌ active_inc) (whole-append xs ys)
whole-append (active_dec ∷ xs) ys = ap (◌∷◌ active_dec) (whole-append xs ys)
whole-append (client_test_error d l ∷ xs) ys = whole-append xs ys
whole-append (test_requested b ∷ xs) ys = whole-append xs ys
whole-append (suites_requested b ∷ xs) ys = whole-append xs ys
whole-append (rate_observed n x ∷ xs) ys = whole-append xs ys
whole-append (result_counted n l ∷ xs) ys = whole-append xs ys
whole-append (in_test d x ∷ xs) ys = whole-append xs ys
whole-append (meta_error l ∷ xs) ys = whole-append xs ys
whole-append (meta_values_observed n ∷ xs) ys = whole-append xs ys
whole-append (record_saved r ∷ xs) ys = ap (◌∷◌ (record_saved r)) (whole-append xs ys)
whole-append (conn_closed ∷ xs) ys = ap (◌∷◌ conn_closed) (whole-append xs ys)
whole-append (panic_counted l ∷ xs) ys = ap (◌∷◌ (panic_counted l)) (whole-append xs ys)
whole-append (control_counted l ∷ xs) ys = ap (◌∷◌ (control_counted l)) (whole-append xs ys)
whole-append (duration_observed d ∷ xs) ys = ap (◌∷◌ (duration_observed d)) (whole-append xs ys)

-- None of the effects belongs to the connection as a whole.
abbrev pub IsInner : {F : Type 0} → List (Effect F) → Type 0
IsInner fx = whole fx ≡ []

pub IsInner-append :
    {F : Type 0} (xs ys : List (Effect F)) → IsInner xs → IsInner ys → IsInner (xs ++ ys)
IsInner-append xs ys h k = whole-append xs ys ∙ rw (h, k)

pub map-IsInner : {F : Type 0} (bs : List Bytes) → IsInner {F = F} (map test_requested bs)
unfolding whole
map-IsInner [] = refl
map-IsInner (b ∷ bs) = map-IsInner bs

-- One of the okay words, or `panic`.
abbrev pub IsLabel : Bytes → Type 0
IsLabel l = (is_in l okay_words ≡ true) ⊎ (l ≡ codes "panic")

pub panic_msg_to_err_type-IsLabel : (p : Bytes) → IsLabel (panic_msg_to_err_type p)
unfolding panic_msg_to_err_type
panic_msg_to_err_type-IsLabel p = elim (Bool-cases (is_in (first_word p) okay_words)) [
  | inl t ↦ rw t (inl t)
  | inr f ↦ rw f (inr refl)
]
