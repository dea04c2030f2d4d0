-- ===== src/Common/Text.antt =====
-- Go strings as lists of bytes, decimal numbers, and Go's pair of a value and an error.
use Prim.Native.Char.{code}
use Prim.Native.Nat.{ℕ}
use Prim.Native.String.{String}
use mathlib.Core.Bool.{Bool, true, false, ◌&&◌}
use mathlib.Core.List.{List, [], ◌∷◌, reverse}
use mathlib.Core.Logic.{◌≢◌, inl, inr}
use mathlib.Core.Path.{◌≡◌, refl}
use native.Mathlib.Omega.{arith}
use ndt_server.Common.Tests.{Bool-cases, ◌==◌}

abbrev pub Bytes : Type 0
Bytes = List ℕ

-- The bytes of an ASCII literal.
abbrev pub codes : String → Bytes
codes String.[] = []
codes (String.◌∷◌ c s) = code c ∷ codes s

-- A Go `error` that is not nil, by its text.
abbrev pub Error : Type 0
Error = Bytes

-- A Go function's `(A, error)` where the value means nothing beside an error.
pub data Result {ℓ} (A : Type ℓ) : Type ℓ where
  ok : A → Result A
  err : Error → Result A

infixl 5 ◌>>=◌
abbrev pub ◌>>=◌ {ℓ κ} : {A : Type ℓ} {B : Type κ} → Result A → (A → Result B) → Result B
ok a >>= f = f a
err e >>= f = err e

-- `==` of Go strings and `bytes.Equal`.
unfoldable pub equal : Bytes → Bytes → Bool
equal [] [] = true
equal (x ∷ xs) (y ∷ ys) = x == y && equal xs ys
equal _ _ = false

pub equal→eq : (a b : Bytes) → equal a b ≡ true → a ≡ b
unfolding equal
equal→eq [] [] h = refl
equal→eq (x ∷ a) (y ∷ b) h = ground (arith, equal→eq a b)
equal→eq [] (y ∷ b) h = ground arith
equal→eq (x ∷ a) [] h = ground arith

pub equal_self : (a : Bytes) → equal a a ≡ true
unfolding equal
equal_self [] = refl
equal_self (x ∷ a) = ground (arith, equal_self a)

abbrev pub starts_with : Bytes → Bytes → Bool
starts_with [] s = true
starts_with (p ∷ ps) [] = false
starts_with (p ∷ ps) (c ∷ cs) = c == p && starts_with ps cs

pub equal→ne : (a b : Bytes) → equal a b ≡ false → a ≢ b
equal→ne a b h e = let t : equal a b ≡ true = rw e (equal_self b) in ground (arith, h, t)

pub equal-false : (a b : Bytes) → a ≢ b → equal a b ≡ false
equal-false a b h = elim (Bool-cases (equal a b)) [
  | inl e ↦ absurd (h (equal→eq a b e))
  | inr e ↦ e
]

-- `strings.HasSuffix`.
unfoldable pub ends_with : Bytes → Bytes → Bool
ends_with suffix s = starts_with (reverse suffix) (reverse s)
