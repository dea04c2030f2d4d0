-- ===== src/Ndt7/Download/Scaling.antt =====
-- The size of the bulk messages, and how it grows.
use ndt_server.Common.{
  ℕ, ◌+◌, ◌*◌, ◌/◌, ◌^◌, ◌≤◌, ◌<◌, ◌≡◌, refl, ◌⊎◌, inr, List, [], ◌∷◌, ◌++◌, Option, none, arith,
  All, All-append, Error, replicate,
}
use ndt_server.Ndt7.Download.{
  Wire, bulk, json, ping, closing, Turn, idle, State, start, step, loop, initial, after_bulk,
  after_scale,
}
use ndt_server.Ndt7.Download.Rule.{start_inv, step_inv}
use ndt_server.Ndt7.Loop.{left_by, continue, run, run-append, run_inv}
use ndt_server.Ndt7.Model.{Params, ArchivalData}

-- A power of two from 2^13 to 2^20.
abbrev pub IsMessageSize : ℕ → Type 0
IsMessageSize n =
    (n ≡ 2 ^ 13)
    ⊎ (n ≡ 2 ^ 14)
    ⊎ (n ≡ 2 ^ 15)
    ⊎ (n ≡ 2 ^ 16)
    ⊎ (n ≡ 2 ^ 17)
    ⊎ (n ≡ 2 ^ 18)
    ⊎ (n ≡ 2 ^ 19)
    ⊎ (n ≡ 2 ^ 20)

abbrev pub bulk_bytes : List Wire → ℕ
bulk_bytes [] = 0
bulk_bytes (bulk n ∷ ws) = n + bulk_bytes ws
bulk_bytes (w ∷ ws) = bulk_bytes ws

abbrev pub IsSized : Wire → Type 0
IsSized (bulk n) = IsMessageSize n
IsSized _ = Unit

-- What holds of the message size, the bytes sent so far and the messages sent so far.
pub record AreScaled (size total : ℕ) (wire : List Wire) : Type 0 where
  pub is_size : IsMessageSize size
  -- Above its initial value, the size is at most an eighth of what has been sent.
  pub share : (size ≡ 2 ^ 13) ⊎ (size * 8 ≤ total)
  pub is_total : total ≡ bulk_bytes wire
  pub sized : All IsSized wire

abbrev pub IsScaled : State → Type 0
IsScaled s = AreScaled s.bulk_message_size s.total_sent s.wire

bulk_bytes-append : (xs ys : List Wire) → bulk_bytes (xs ++ ys) ≡ bulk_bytes xs + bulk_bytes ys
bulk_bytes-append [] ys = omega arith
bulk_bytes-append (bulk n ∷ xs) ys = omega (arith, bulk_bytes-append xs ys)
bulk_bytes-append (json m ∷ xs) ys = bulk_bytes-append xs ys
bulk_bytes-append (ping ∷ xs) ys = bulk_bytes-append xs ys
bulk_bytes-append (closing ∷ xs) ys = bulk_bytes-append xs ys

send-AreScaled :
    (w : Wire) (n t : ℕ) (ws : List Wire)
    → IsSized w
    → bulk_bytes (w ∷ []) ≡ 0
    → AreScaled n t ws
    → AreScaled n t (ws ++ w ∷ [])
send-AreScaled w n t ws k z v = record {
  is_size = v.is_size;
  share = v.share;
  is_total = omega (arith, v.is_total, bulk_bytes-append ws (w ∷ []));
  sized = All-append IsSized ws (w ∷ []) v.sized (k, tt);
}

bulk-AreScaled :
    (n t : ℕ) (ws : List Wire) → AreScaled n t ws → AreScaled n (t + n) (ws ++ bulk n ∷ [])
bulk-AreScaled n t ws v = record {
  is_size = v.is_size;
  share = omega (arith, v.share);
  is_total = omega (arith, v.is_total, bulk_bytes-append ws (bulk n ∷ []));
  sized = All-append IsSized ws (bulk n ∷ []) v.sized (v.is_size, tt);
}

double-AreScaled :
    (n t : ℕ) (ws : List Wire) → n < 2 ^ 20 → n ≤ t / 16 → AreScaled n t ws → AreScaled (n * 2) t ws
double-AreScaled n t ws l h v = record {
  is_size = omega (arith, v.is_size);
  share = inr (omega arith);
  is_total = v.is_total;
  sized = v.sized;
}

-- Whatever the client, the network and the clock do, and whenever the sender stops: the message size
-- is a power of two from 8 KiB to 1 MiB, it exceeds 8 KiB only when it is at most an eighth of the
-- bytes sent, these bytes are those of the bulk messages, and each of these had such a size.
pub start-IsScaled :
    (p : Params) (begin finish : ℕ) (prepared deadline : Option Error) (ts : List Turn)
    (d : ArchivalData)
    → IsScaled (left_by (start p begin finish prepared deadline ts d))
start-IsScaled p begin finish prepared deadline ts d =
    start_inv IsScaled
      (record {
        counts = λ l s v. v;
        begins = λ t s v. v;
        ends = λ t s v. v;
        closes = λ s v. send-AreScaled closing _ _ s.wire tt refl v;
        pings = λ s v. send-AreScaled ping _ _ s.wire tt refl v;
        saves = λ m s v. send-AreScaled (json m) _ _ s.wire tt refl v;
        fills = λ s v. bulk-AreScaled _ _ s.wire v;
        doubles = λ s h k v. double-AreScaled _ _ s.wire h k v;
      })
      p begin finish prepared deadline ts d
      (record { is_size = omega arith; share = omega arith; is_total = refl; sized = tt })

-- A round in which the measurer has nothing and every write succeeds.
abbrev pub quiet : Turn
quiet = idle none none

abbrev HasGrown : State → Type 0
HasGrown s = s.bulk_message_size ≡ 2 ^ 20

quiet_64 :
    (p : Params) (d : ArchivalData)
    → (s : State) × (loop p (replicate 64 quiet) (initial d) ≡ continue s) × HasGrown s
unfolding run step after_bulk after_scale
quiet_64 p d = (left_by (loop p (replicate 64 quiet) (initial d)), refl, refl)

-- After 64 bulk messages with no failure the message size has reached 1 MiB, and it stays there,
-- whatever the rest of the test brings.
pub loop_reaches_maximum :
    (p : Params) (ts : List Turn) (d : ArchivalData)
    → (left_by (loop p (replicate 64 quiet ++ ts) (initial d))).bulk_message_size ≡ 2 ^ 20
loop_reaches_maximum p ts d =
    let (s, e, g) = quiet_64 p d in
    rw (run-append (step p) (replicate 64 quiet) ts (initial d), e)
      (run_inv (step p) HasGrown
        (step_inv HasGrown
          (record {
            counts = λ l s v. v;
            begins = λ t s v. v;
            ends = λ t s v. v;
            closes = λ s v. v;
            pings = λ s v. v;
            saves = λ m s v. v;
            fills = λ s v. v;
            doubles = λ s h k v. absurd (omega (arith, h, v));
          })
          p)
        ts s g)
