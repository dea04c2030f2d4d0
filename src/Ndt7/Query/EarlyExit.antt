-- ===== src/Ndt7/Query/EarlyExit.antt =====
-- What `validateEarlyExit` decides, whatever the order in which the map is walked.
use ndt_server.Common.{
  ◌≡◌, refl, ◌≢◌, true, false, List, [], ◌∷◌, ◌++◌, codes, ok, err, All, equal, equal→eq,
  equal_self, equal-false, Bool-cases, inl, inr, pos, sym, subst, ◌∙◌, if◌then◌else◌,
}
use ndt_server.Ndt7.Query.{
  Parameter, validate_early_exit, check_early_exit, invalid_value, contains, parse_int,
}
use ndt_server.Ndt7.Model.{Params}
use ndt_server.Ndt7.Spec.{early_exit_parameter_name}

abbrev pub IsOther : Parameter → Type 0
IsOther q = q.name ≢ early_exit_parameter_name

abbrev pub no_early_exit : Params
no_early_exit = record { is_early_exit = false; max_bytes = pos 0 }

abbrev pub early_exit_250 : Params
early_exit_250 = record { is_early_exit = true; max_bytes = pos 250000000 }

skip_other :
    (q : Parameter) (qs : List Parameter)
    → IsOther q
    → validate_early_exit (q ∷ qs) ≡ validate_early_exit qs
unfolding validate_early_exit
skip_other q qs h = rw (equal-false q.name early_exit_parameter_name h)

skip_others :
    (pre qs : List Parameter)
    → All IsOther pre
    → validate_early_exit (pre ++ qs) ≡ validate_early_exit qs
skip_others [] qs h = refl
skip_others (q ∷ pre) qs h = skip_other q (pre ++ qs) h.0 ∙ skip_others pre qs h.1

check_lem :
    (q : Parameter)
    → check_early_exit q ≡ (
        if equal (codes "250") q.value
        then ok early_exit_250
        else err (invalid_value q.name q.value))
unfolding check_early_exit contains
check_lem q = elim (Bool-cases (equal (codes "250") q.value)) [
  | inl e ↦ rw (e, sym (equal→eq (codes "250") q.value e)) (unfold parse_int in refl)
  | inr e ↦ rw e
]

take_early_exit :
    (q : Parameter) (qs : List Parameter)
    → equal q.name early_exit_parameter_name ≡ true
    → validate_early_exit (q ∷ qs) ≡ check_early_exit q
unfolding validate_early_exit
take_early_exit q qs h = rw h

-- A request with an `early_exit` parameter is accepted exactly with the value 250, which stands for
-- 250 MB, and any other value is refused with the error that names it, wherever the parameter is
-- met among the others.
pub validate_early_exit_present :
    (pre post : List Parameter) (q : Parameter)
    → All IsOther pre
    → q.name ≡ early_exit_parameter_name
    → validate_early_exit (pre ++ q ∷ post) ≡ (
        if equal (codes "250") q.value
        then ok early_exit_250
        else err (invalid_value q.name q.value))
validate_early_exit_present pre post q h e =
    skip_others pre (q ∷ post) h
    ∙ take_early_exit q post (
        subst (λ n. equal n early_exit_parameter_name ≡ true) (sym e)
          (equal_self early_exit_parameter_name))
    ∙ check_lem q

-- A request without an `early_exit` parameter is accepted, with no early exit.
pub validate_early_exit_absent :
    (qs : List Parameter) → All IsOther qs → validate_early_exit qs ≡ ok no_early_exit
validate_early_exit_absent [] h = unfold validate_early_exit in refl
validate_early_exit_absent (q ∷ qs) h = skip_other q qs h.0 ∙ validate_early_exit_absent qs h.1
