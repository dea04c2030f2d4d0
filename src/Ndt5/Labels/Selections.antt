-- ===== src/Ndt5/Labels/Selections.antt =====
-- Which requests, directions and errors are among the words that the metrics declare
-- (ndt5/ndt5.go, ndt5/metrics/metrics.go).
use ndt_server.Common.{
  ◌≡◌, refl, inl, inr, Bool, true, false, List, [], ◌∷◌, ◌++◌, map, Bytes, codes, ℤ, All,
  All-append, Bool-cases, equal, equal→eq,
}
use ndt_server.Ndt5.Events.{Effect, test_requested}
use ndt_server.Ndt5.Labels.{
  updates, all_updates, all_updates-append, directions, IsSelection, done, skips, takes,
  label_names, optional_suites, IsLabelled,
}
use ndt_server.Ndt5.Panics.{is_in}
use ndt_server.Ndt5.Suites.{only_if, requested, suites, join, has_bit}

-- All updates of the effects are labelled as they are declared.
abbrev pub AreLabelled : {F : Type 0} → Bytes → Bytes → List (Effect F) → Type 0
AreLabelled proto mon fx = All (IsLabelled proto mon) (all_updates proto mon fx)

pub AreLabelled-append :
    {F : Type 0} (proto mon : Bytes) (xs ys : List (Effect F))
    → AreLabelled proto mon xs
    → AreLabelled proto mon ys
    → AreLabelled proto mon (xs ++ ys)
AreLabelled-append proto mon xs ys h k =
    rw (all_updates-append proto mon xs ys)
      (All-append (IsLabelled proto mon) (all_updates proto mon xs) (all_updates proto mon ys) h k)

-- A name that is or is not chosen, before a selection of the names after it.
only_if-IsSelection :
    {ws ns : List Bytes} (b : Bool) (n : Bytes)
    → IsSelection ws ns
    → IsSelection (only_if b n ++ ws) (n ∷ ns)
only_if-IsSelection true n h = takes n h
only_if-IsSelection false n h = skips n h

only_if_last : (b : Bool) (n : Bytes) → IsSelection (only_if b n) (n ∷ [])
only_if_last true n = takes n done
only_if_last false n = skips n done

pub requested-IsSelection : (tests : ℤ) → IsSelection (requested tests) optional_suites
unfolding requested
requested-IsSelection tests = only_if-IsSelection (has_bit 0 tests) (codes "mid") (
    only_if-IsSelection (has_bit 1 tests) (codes "c2s") (
      only_if-IsSelection (has_bit 2 tests) (codes "s2c") (
        only_if-IsSelection (has_bit 3 tests) (codes "sfw")
          (only_if_last (has_bit 5 tests) (codes "meta")))))

pub All-selection :
    (P : Bytes → Type 0) {ws ns : List Bytes} → IsSelection ws ns → All P ns → All P ws
All-selection P done k = tt
All-selection P (skips n h) k = All-selection P h k.1
All-selection P (takes n h) k = (k.0, All-selection P h k.1)

pub is_in_subset :
    (xs ys : List Bytes) (b : Bytes)
    → All (λ x. is_in x ys ≡ true) xs
    → is_in b xs ≡ true
    → is_in b ys ≡ true
is_in_subset [] ys b h e = cc
is_in_subset (x ∷ xs) ys b h e = elim (Bool-cases (equal b x)) [
  | inl t ↦ rw (equal→eq b x t) h.0
  | inr f ↦ is_in_subset xs ys b h.1 (rw f at e)
]

pub suites_allowed :
    (tests : ℤ)
    → (ws : List Bytes) × (join (codes "-") (suites tests) ≡ join (codes "-") (codes "status" ∷ ws))
      × IsSelection ws optional_suites
unfolding suites
suites_allowed tests = (requested tests, refl, requested-IsSelection tests)

pub requested-AreLabelled :
    (F : Type 0) (proto mon : Bytes) (ws : List Bytes)
    → All (λ w. is_in w directions ≡ true) ws
    → AreLabelled {F = F} proto mon (map test_requested ws)
unfolding all_updates updates label_names
requested-AreLabelled F proto mon [] h = tt
requested-AreLabelled F proto mon (w ∷ ws) h =
    ((refl, (h.0, tt)), requested-AreLabelled F proto mon ws h.1)
