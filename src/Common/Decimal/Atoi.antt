-- ===== src/Common/Decimal/Atoi.antt =====
-- `strconv.Atoi` reads what `strconv.Itoa` writes.
use Prim.Native.Nat.{ℕ, zero, suc, ◌+◌, ◌-◌, ◌/◌, ◌^◌, ◌<◌}
use mathlib.Core.Bool.{true, false}
use mathlib.Core.List.{[], ◌∷◌}
use mathlib.Core.Logic.{inl, inr}
use mathlib.Core.Option.{some}
use mathlib.Core.Path.{◌≡◌, refl, sym, ap, ◌∙◌}
use native.Mathlib.Omega.{arith}
use ndt_server.Common.Decimal.{itoa_onto, itoa, digits_from, digits_from-itoa, atoi}
use ndt_server.Common.Int.{pos}
use ndt_server.Common.Lists.{All}
use ndt_server.Common.Tests.{Bool-cases, ltb, leb, ◌==◌}
use ndt_server.Common.Text.{Bytes, ok}

itoa_onto-All :
    (f n : ℕ) (acc : Bytes) → All (λ c. c < 128) acc → All (λ c. c < 128) (itoa_onto f n acc)
unfolding itoa_onto
itoa_onto-All zero n acc h = h
itoa_onto-All (suc f) n acc h = elim (Bool-cases (ltb n 10)) [
  | inl t ↦ rw t (ground arith, h)
  | inr t ↦ rw t (itoa_onto-All f (n / 10) _ (omega arith, h))
]

-- Numerals are ASCII.
pub itoa-All : (n : ℕ) → All (λ c. c < 128) (itoa n)
itoa-All n = unfold itoa in itoa_onto-All (suc n) n [] tt

-- A text that begins with a digit.
abbrev Numeral : Bytes → Type 0
Numeral s = (d : ℕ) × (rest : Bytes) × (d < 10) × (s ≡ (b'0' + d) ∷ rest)

itoa_onto-Numeral : (f n : ℕ) (acc : Bytes) → n < f → Numeral (itoa_onto f n acc)
unfolding itoa_onto
itoa_onto-Numeral zero n acc h = absurd (omega arith)
itoa_onto-Numeral (suc f) n acc h = elim (Bool-cases (ltb n 10)) [
  | inl t ↦ rw t (n, acc, ground arith, refl)
  | inr t ↦ rw t (itoa_onto-Numeral f (n / 10) _ (ground arith))
]

atoi-digits :
    (d : ℕ) (s : Bytes) (n : ℕ)
    → d < 10
    → n < 2 ^ 63
    → digits_from 0 ((b'0' + d) ∷ s) ≡ some n
    → atoi ((b'0' + d) ∷ s) ≡ ok (pos n)
unfolding atoi
atoi-digits d s n h k e =
    let m : ((b'0' + d) == b'-') ≡ false = ground arith in
    let p : ((b'0' + d) == b'+') ≡ false = ground arith in
    let l : leb n (2 ^ 63 - 1) ≡ true = ground arith in rw (m, p, e, l)

-- A number below 2 ^ 63 is read back from its numeral.
pub atoi-itoa : (n : ℕ) → n < 2 ^ 63 → atoi (itoa n) ≡ ok (pos n)
atoi-itoa n h =
    let (d, rest, k, e) : Numeral (itoa n) =
      unfold itoa in itoa_onto-Numeral (suc n) n [] (omega arith) in
    ap atoi e ∙ atoi-digits d rest n k h (ap (digits_from 0) (sym e) ∙ digits_from-itoa n)
