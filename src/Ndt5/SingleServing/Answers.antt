-- ===== src/Ndt5/SingleServing/Answers.antt =====
-- What `ServeOnce` of a single-serving websocket server gives, and the effects of `Close`
-- (ndt5/singleserving/server.go).
use ndt_server.Common.{
  ℕ, suc, ◌<◌, ◌≡◌, refl, ◌⊎◌, inr, Bool, true, false, List, [], ◌∷◌, ◌++◌, Option, none, some,
  Error, arith, ap, ◌&&◌,
}
use ndt_server.Ndt5.SingleServing.{
  ConnectionType, Effect, start_counted, stop_counted, listener_closed, http_server_closed,
  accept_labelled, is_none, At, waiting, woken, checked, counting, closing, returned,
}

-- The effects of `Close`.
unfoldable pub stops : List Effect → List Effect
stops [] = []
stops (start_counted k ∷ fx) = stops fx
stops (stop_counted k ∷ fx) = stop_counted k ∷ stops fx
stops (listener_closed ∷ fx) = listener_closed ∷ stops fx
stops (http_server_closed ∷ fx) = http_server_closed ∷ stops fx
stops (accept_labelled k d ∷ fx) = stops fx

pub stops-append : (xs ys : List Effect) → stops (xs ++ ys) ≡ stops xs ++ stops ys
unfolding stops
stops-append [] ys = refl
stops-append (start_counted k ∷ xs) ys = stops-append xs ys
stops-append (stop_counted k ∷ xs) ys = ap (◌∷◌ (stop_counted k)) (stops-append xs ys)
stops-append (listener_closed ∷ xs) ys = ap (◌∷◌ listener_closed) (stops-append xs ys)
stops-append (http_server_closed ∷ xs) ys = ap (◌∷◌ http_server_closed) (stops-append xs ys)
stops-append (accept_labelled k d ∷ xs) ys = stops-append xs ys

-- Once, if at all.
abbrev pub stops_of : ConnectionType → Bool → List Effect
stops_of k true = stop_counted k ∷ listener_closed ∷ http_server_closed ∷ []
stops_of k false = []

module _ {C : Type 0} where
  abbrev pub IsIn : C → List C → Type 0
  IsIn c [] = ⊥
  IsIn c (x ∷ xs) = (c ≡ x) ⊎ IsIn c xs

  -- A connection that a handler has upgraded, if there is one.
  abbrev pub IsUpgraded : List C → Option C → Type 0
  IsUpgraded up none = Unit
  IsUpgraded up (some c) = IsIn c up

  -- An upgraded connection, or an error.
  abbrev pub IsAnswer : List C → Option C → Option Error → Type 0
  IsAnswer up none none = ⊥
  IsAnswer up none (some e) = Unit
  IsAnswer up (some c) e = IsIn c up

  -- `Close` has run, or a goroutine that runs it is pending, once there is a connection.
  abbrev pub IsStopping : Option C → Bool → ℕ → Type 0
  IsStopping none b n = Unit
  IsStopping (some c) true n = Unit
  IsStopping (some c) false n = 0 < n

  -- What `ServeOnce` knows at each place, by the upgraded connections, the fields and whether `Close` has run.
  abbrev pub IsSoundAt : List C → Option C → Option Error → Bool → At C → Type 0
  IsSoundAt up c e d waiting = Unit
  IsSoundAt up c e d (woken x) = Unit
  IsSoundAt up c e d checked = Unit
  IsSoundAt up c e d counting = IsAnswer up c e
  IsSoundAt up c e d (closing c' e') = IsAnswer up c' e'
  IsSoundAt up c e d (returned c' e') = IsAnswer up c' e' × (d ≡ true)

  pub IsAnswer-more :
      (x : C) (up : List C) (c : Option C) (e : Option Error)
      → IsAnswer up c e
      → IsAnswer (x ∷ up) c e
  IsAnswer-more x up none none h = h
  IsAnswer-more x up none (some e) h = h
  IsAnswer-more x up (some c) e h = inr h

  pub IsAnswer-error :
      (up : List C) (c : Option C) (e : Error) → IsUpgraded up c → IsAnswer up c (some e)
  IsAnswer-error up none e h = tt
  IsAnswer-error up (some c) e h = h

  pub IsStopping-done : (c : Option C) (n : ℕ) → IsStopping c true n
  IsStopping-done none n = tt
  IsStopping-done (some c) n = tt

  pub IsStopping-pending : (c : C) (b : Bool) (n : ℕ) → IsStopping (some c) b (suc n)
  IsStopping-pending c true n = tt
  IsStopping-pending c false n = omega arith

  pub IsAnswer-checked :
      (up : List C) (c : Option C) (e : Option Error)
      → IsUpgraded up c
      → (is_none c && is_none e) ≡ false
      → IsAnswer up c e
  IsAnswer-checked up none none u h = ground arith
  IsAnswer-checked up none (some e) u h = tt
  IsAnswer-checked up (some c) e u h = u
