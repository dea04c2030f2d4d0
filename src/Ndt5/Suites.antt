-- ===== src/Ndt5/Suites.antt =====
-- The tests that a client asks for, by the bits of a number (ndt5/ndt5.go).
use ndt_server.Common.{
  ℕ, ◌/◌, ◌%◌, ◌^◌, ◌==◌, Bool, true, false, List, [], ◌∷◌, ◌++◌, Bytes, codes, ℤ, pos, negsuc,
}

-- `tests & 2^k != 0`, in two's complement.
abbrev pub has_bit : ℕ → ℤ → Bool
has_bit k (pos n) = n / 2 ^ k % 2 == 1
has_bit k (negsuc n) = n / 2 ^ k % 2 == 0

-- Words with a separator between them: `strings.Join`.
abbrev pub join : Bytes → List Bytes → Bytes
join sep [] = []
join sep (b ∷ []) = b
join sep (b ∷ d ∷ bs) = b ++ (sep ++ join sep (d ∷ bs))

abbrev pub only_if : Bool → Bytes → List Bytes
only_if true b = b ∷ []
only_if false b = []

unfoldable pub tests_to_run : ℤ → List Bytes
tests_to_run tests =
    only_if (has_bit 1 tests) (codes "2")
    ++ (only_if (has_bit 2 tests) (codes "4") ++ only_if (has_bit 5 tests) (codes "32"))

-- The tests by which `ClientRequestedTests` counts.
unfoldable pub requested : ℤ → List Bytes
requested tests =
    (only_if (has_bit 0 tests) (codes "mid")
      ++ (only_if (has_bit 1 tests) (codes "c2s")
          ++ (only_if (has_bit 2 tests) (codes "s2c")
              ++ (only_if (has_bit 3 tests) (codes "sfw")
                  ++ only_if (has_bit 5 tests) (codes "meta")))))

unfoldable pub suites : ℤ → List Bytes
suites tests = codes "status" ∷ requested tests
