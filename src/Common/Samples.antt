-- ===== src/Common/Samples.antt =====
-- Concrete values for tests: integers in place of floats.
use Prim.Native.Nat.{zero, suc, ◌*◌, ◌/◌}
use mathlib.Core.Bool.{Bool, true, false}
use mathlib.Core.List.{[]}
use mathlib.Core.Option.{none}
use mathlib.Core.Path.{refl}
use ndt_server.Common.Floats.{Float}
use ndt_server.Common.Int.{ℤ, pos, negsuc, pos_part}
use ndt_server.Common.Tests.{ltb}

abbrev is_zero_ℤ : ℤ → Bool
is_zero_ℤ (pos zero) = true
is_zero_ℤ (pos (suc n)) = false
is_zero_ℤ (negsuc n) = false

abbrev pub whole_numbers : Float
whole_numbers = record {
  F = ℤ;
  of_int = λ x. x;
  mul = λ x y. pos (pos_part x * pos_part y);
  div = λ x y. pos (pos_part x / pos_part y);
  is_zero = is_zero_ℤ;
  is_positive = λ x. ltb 0 (pos_part x);
  lt = λ x y. ltb (pos_part x) (pos_part y);
  to_int = λ x. x;
  format_4 = λ x. [];
  parse = λ s. none;
  zero_is_zero = refl;
  zero_not_positive = refl;
}
