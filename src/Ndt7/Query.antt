-- ===== src/Ndt7/Query.antt =====
-- ndt7/handler/handler.go: what is read from the request's parameters.
pub mod EarlyExit
pub mod Metadata
use ndt_server.Common.{
  ℕ, ◌+◌, ◌-◌, ◌*◌, Bool, true, false, ◌||◌, not, List, [], ◌∷◌, ◌++◌, Option, none, some, Bytes,
  Error, codes, Result, ok, err, equal, starts_with, digits_from, ℤ, pos, if◌then◌else◌,
}
use ndt_server.Ndt7.Model.{Params, NameValue, ArchivalData}
use ndt_server.Ndt7.Spec.{valid_early_exit_values, early_exit_parameter_name}

-- A parameter of `url.Values`: its name, its first value and its other values. A parsed query gives
-- each name at least one value. The list is in the order in which the map is walked.
pub record Parameter : Type 0 where
  pub name : Bytes
  pub value : Bytes
  pub more : List Bytes

-- `slices.Contains`.
contains : List Bytes → Bytes → Bool
contains [] v = false
contains (w ∷ ws) v = equal w v || contains ws v

pub invalid_value : Bytes → Bytes → Error
invalid_value name value = codes "invalid " ++ (name ++ (codes " parameter value " ++ value))

abbrev or_zero : Option ℕ → ℕ
or_zero none = 0
or_zero (some n) = n

-- `strconv.ParseInt(value, 10, 64)` of an accepted value, which is a numeral without a sign.
parse_int : Bytes → ℕ
unfolding digits_from
parse_int v = or_zero (digits_from 0 v)

check_early_exit : Parameter → Result Params
unfolding contains parse_int invalid_value
check_early_exit q =
    if not (contains valid_early_exit_values q.value)
    then err (invalid_value q.name q.value)
    else ok (record { is_early_exit = true; max_bytes = pos (parse_int q.value * 1000000) })

unfoldable pub validate_early_exit : List Parameter → Result Params
unfolding check_early_exit
validate_early_exit [] = ok (record { is_early_exit = false; max_bytes = pos 0 })
validate_early_exit (q ∷ qs) =
    if not (equal q.name early_exit_parameter_name)
    then validate_early_exit qs
    else check_early_exit q

-- `excludeKeyRe.MatchString`.
abbrev pub is_excluded : Bytes → Bool
is_excluded name = starts_with (codes "server_") name

unfoldable pub append_client_metadata : ArchivalData → List Parameter → ArchivalData
append_client_metadata d [] = d
append_client_metadata d (q ∷ qs) =
    append_client_metadata
      (if is_excluded q.name then d else record d {
        client_metadata = d.client_metadata ++ (record { name = q.name; value = q.value }) ∷ [];
      })
      qs
