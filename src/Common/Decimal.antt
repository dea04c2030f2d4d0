-- ===== src/Common/Decimal.antt =====
-- Decimal numerals, as package strconv writes and reads them.
pub mod Atoi
use Prim.Native.Nat.{ℕ, zero, suc, ◌+◌, ◌-◌, ◌*◌, ◌/◌, ◌%◌, ◌^◌, ◌<◌}
use mathlib.Core.Bool.{Bool, true, false, ◌&&◌}
use mathlib.Core.List.{[], ◌∷◌, ◌++◌}
use mathlib.Core.Logic.{inl, inr}
use mathlib.Core.Option.{Option, none, some}
use mathlib.Core.Path.{◌≡◌, refl, ◌∙◌, ap}
use native.Mathlib.Omega.{arith}
use ndt_server.Common.Int.{ℤ, pos, negsuc}
use ndt_server.Common.Tests.{Bool-cases, ltb, leb, ◌==◌, if◌then◌else◌}
use ndt_server.Common.Text.{Bytes, Error, Result, ok, err, codes}

-- `strconv.Itoa` of a number that is not negative, digit by digit, with fuel.
itoa_onto : ℕ → ℕ → Bytes → Bytes
itoa_onto zero n acc = acc
itoa_onto (suc f) n acc =
    let rest = itoa_onto f (n / 10) ((b'0' + n % 10) ∷ acc) in
    if ltb n 10 then (b'0' + n) ∷ acc else rest

-- The fuel is one more than the number, which has no more digits than that.
unfoldable pub itoa : ℕ → Bytes
unfolding itoa_onto
itoa n = itoa_onto (suc n) n []

-- `strconv.FormatInt(x, 10)`, and `%d`.
unfoldable pub format_int : ℤ → Bytes
unfolding itoa
format_int (pos n) = itoa n
format_int (negsuc n) = b'-' ∷ itoa (suc n)

abbrev pub is_digit : ℕ → Bool
is_digit c = leb b'0' c && leb c b'9'

-- The value of a row of digits, behind those with the value `acc`.
unfoldable pub digits_from : ℕ → Bytes → Option ℕ
digits_from acc [] = some acc
digits_from acc (c ∷ cs) = if is_digit c then digits_from (acc * 10 + (c - b'0')) cs else none

syntax_error : Bytes → Error
syntax_error s = codes "strconv.Atoi: parsing \"" ++ (s ++ codes "\": invalid syntax")

range_error : Bytes → Error
range_error s = codes "strconv.Atoi: parsing \"" ++ (s ++ codes "\": value out of range")

abbrev in_range : Bytes → ℕ → ℕ → ℤ → Result ℤ
in_range s limit n v = if leb n limit then ok v else err (range_error s)

abbrev negated : ℕ → ℤ
negated zero = pos 0
negated (suc n) = negsuc n

abbrev signed : Bytes → Bool → Option ℕ → Result ℤ
signed s minus none = err (syntax_error s)
signed s true (some n) = in_range s (2 ^ 63) n (negated n)
signed s false (some n) = in_range s (2 ^ 63 - 1) n (pos n)

-- At least one digit is wanted.
abbrev digits : Bytes → Option ℕ
digits [] = none
digits (c ∷ cs) = digits_from 0 (c ∷ cs)

-- `strconv.Atoi`, where an int has 64 bits.
unfoldable pub atoi : Bytes → Result ℤ
unfolding digits_from syntax_error range_error
atoi [] = err (syntax_error [])
atoi (c ∷ cs) =
    if c == b'-'
    then signed (c ∷ cs) true (digits cs)
    else if c == b'+'
    then signed (c ∷ cs) false (digits cs)
    else signed (c ∷ cs) false (digits (c ∷ cs))

digits_from-digit :
    (a d : ℕ) (s : Bytes) → d < 10 → digits_from a ((b'0' + d) ∷ s) ≡ digits_from (a * 10 + d) s
unfolding digits_from
digits_from-digit a d s h =
    let e : b'0' + d - b'0' ≡ d = omega arith in
    let f : is_digit (b'0' + d) ≡ true = ground arith in rw (f, e)

digits_from-itoa_onto :
    (f n : ℕ) (acc : Bytes) → n < f → digits_from 0 (itoa_onto f n acc) ≡ digits_from n acc
unfolding itoa_onto
digits_from-itoa_onto zero n acc h = absurd (omega arith)
digits_from-itoa_onto (suc f) n acc h = elim (Bool-cases (ltb n 10)) [
  | inl small ↦
      rw small
        (digits_from-digit 0 n acc (ground arith) ∙ ap (λ k. digits_from k acc) (omega arith))
  | inr large ↦ rw large (
      digits_from-itoa_onto f (n / 10) ((b'0' + n % 10) ∷ acc) (ground arith)
      ∙ digits_from-digit (n / 10) (n % 10) acc (omega arith)
      ∙ ap (λ k. digits_from k acc) (omega arith))
]

-- Reading back what `itoa` writes.
pub digits_from-itoa : (n : ℕ) → digits_from 0 (itoa n) ≡ some n
digits_from-itoa n =
    unfold itoa in digits_from-itoa_onto (suc n) n [] (omega arith) ∙ unfold digits_from in refl
