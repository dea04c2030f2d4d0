-- ===== src/Ndt7/Loop.antt =====
-- A loop over a script: each round takes one entry, and goes on or returns.
use ndt_server.Common.{List, [], ◌∷◌, ◌++◌, ◌≡◌, refl, Option, Error, ap, fun_ext, sym, ◌∙◌, All}

-- `return` carries the error that the function returns, if any.
pub data Step (S : Type 0) : Type 0 where
  continue : S → Step S
  return : Option Error → S → Step S

module _ {S : Type 0} where
  abbrev pub and_then : Step S → (S → Step S) → Step S
  and_then (continue s) k = k s
  and_then (return e s) k = return e s

  pub and_then-continue : (r : Step S) → and_then r continue ≡ r
  and_then-continue (continue s) = refl
  and_then-continue (return e s) = refl

  -- The state that a step leaves, whether the loop goes on or not.
  abbrev pub left_by : Step S → S
  left_by (continue s) = s
  left_by (return e s) = s

  and_then_inv {ℓ} :
      (P : S → Type ℓ) (r : Step S) (k : S → Step S)
      → P (left_by r)
      → ((s : S) → P s → P (left_by (k s)))
      → P (left_by (and_then r k))
  and_then_inv P (continue s) k h f = f s h
  and_then_inv P (return e s) k h f = h

-- A change of the state that leaves the flow of control alone.
abbrev pub map_step : {S : Type 0} → (S → S) → Step S → Step S
map_step f (continue s) = continue (f s)
map_step f (return e s) = return e (f s)

pub left_by-map_step :
    {S : Type 0} (f : S → S) (r : Step S) → left_by (map_step f r) ≡ f (left_by r)
left_by-map_step f (continue s) = refl
left_by-map_step f (return e s) = refl

module _ {T S : Type 0} (step : T → S → Step S) where
  -- At the end of the script the loop is still running.
  unfoldable pub run : List T → S → Step S
  run [] s = continue s
  run (t ∷ ts) s = and_then (step t s) (run ts)

  -- What every round keeps, the loop keeps.
  pub run_inv {ℓ} :
      (P : S → Type ℓ)
      → ((t : T) (s : S) → P s → P (left_by (step t s)))
      → (ts : List T) (s : S) → P s
      → P (left_by (run ts s))
  unfolding run
  run_inv P keep [] s h = h
  run_inv P keep (t ∷ ts) s h = and_then_inv P (step t s) (run ts) (keep t s h) (run_inv P keep ts)

  -- The same, for a script whose turns satisfy `Q`.
  pub run_inv_all {ℓ κ} :
      (P : S → Type ℓ) (Q : T → Type κ)
      → ((t : T) (s : S) → Q t → P s → P (left_by (step t s)))
      → (ts : List T) (s : S) → All Q ts
      → P s
      → P (left_by (run ts s))
  unfolding run
  run_inv_all P Q keep [] s q h = h
  run_inv_all P Q keep (t ∷ ts) s q h =
      and_then_inv P (step t s) (run ts) (keep t s q.0 h) (λ u k. run_inv_all P Q keep ts u q.1 k)

  and_then_assoc :
      (r : Step S) (f g : S → Step S)
      → and_then (and_then r f) g ≡ and_then r (λ s. and_then (f s) g)
  and_then_assoc (continue s) f g = refl
  and_then_assoc (return e s) f g = refl

  pub run-append : (xs ys : List T) (s : S) → run (xs ++ ys) s ≡ and_then (run xs s) (run ys)
  unfolding run
  run-append [] ys s = refl
  run-append (x ∷ xs) ys s =
      ap (and_then (step x s)) (fun_ext (run-append xs ys))
      ∙ sym (and_then_assoc (step x s) (run xs) (run ys))

  -- What commutes with every round commutes with the loop.
  pub run-map_step :
      (f : S → S)
      → ((t : T) (s : S) → step t (f s) ≡ map_step f (step t s))
      → (ts : List T) (s : S) → run ts (f s) ≡ map_step f (run ts s)
  unfolding run
  run-map_step f commutes [] s = refl
  run-map_step f commutes (t ∷ ts) s =
      rw (commutes t s) (later (step t s) (run-map_step f commutes ts))
    where
      later :
          (r : Step S)
          → ((u : S) → run ts (f u) ≡ map_step f (run ts u))
          → and_then (map_step f r) (run ts) ≡ map_step f (and_then r (run ts))
      later (continue u) h = h u
      later (return e u) h = refl

  -- One more round, where the loop was still running.
  pub run-snoc :
      (xs : List T) (x : T) (s u : S) → run xs s ≡ continue u → run (xs ++ x ∷ []) s ≡ step x u
  unfolding run
  run-snoc xs x s u h = run-append xs (x ∷ []) s ∙ rw h (and_then-continue (step x u))
