-- ===== src/Common/Floats.antt =====
-- Go's float64, which is no part of the program: the operations that the code uses.
use mathlib.Core.Bool.{Bool, true, false}
use mathlib.Core.Option.{Option}
use mathlib.Core.Path.{◌≡◌}
use ndt_server.Common.Int.{ℤ, pos}
use ndt_server.Common.Text.{Bytes}

pub record Float : Type 1 where
  pub F : Type 0
  -- `float64(x)` of an int64 or of a constant.
  pub of_int : ℤ → F
  pub mul : F → F → F
  pub div : F → F → F
  -- `x == 0`, `x > 0` and `x < y`.
  pub is_zero : F → Bool
  pub is_positive : F → Bool
  pub lt : F → F → Bool
  -- `int64(x)`.
  pub to_int : F → ℤ
  -- `%.4f`.
  pub format_4 : F → Bytes
  -- `strconv.ParseFloat(s, 64)`: what it gives, if it succeeds.
  pub parse : Bytes → Option F
  pub zero_is_zero : is_zero (of_int (pos 0)) ≡ true
  pub zero_not_positive : is_positive (of_int (pos 0)) ≡ false
