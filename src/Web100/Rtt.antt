-- ===== src/Web100/Rtt.antt =====
-- The RTT statistics of `summarize`.
use ndt_server.Common.{
  ℕ, ◌+◌, ◌/◌, ◌%◌, ◌^◌, ◌≤◌, ◌<◌, ◌≡◌, refl, ◌⊎◌, inl, inr, List, [], ◌∷◌, ◌++◌, some, ok, arith,
  All, Any, length, get_last?, ap, ◌∙◌, sym, subst,
}
use ndt_server.Tcp.{TcpInfo}
use ndt_server.Web100.{Metrics, Rtts, no_rtts, add_snap, add_snaps, summarize}

abbrev pub IsPositive : TcpInfo → Type 0
IsPositive s = 0 < s.rtt

add_snap_max :
    (r : Rtts) (s : TcpInfo)
    → (r.maximum ≤ (add_snap r s).maximum)
      × (s.rtt ≤ (add_snap r s).maximum)
      × (((add_snap r s).maximum ≡ r.maximum) ⊎ ((add_snap r s).maximum ≡ s.rtt))
unfolding add_snap
add_snap_max r s = ground arith

add_snap_min :
    (r : Rtts) (s : TcpInfo)
    → 0 < r.minimum
    → 0 < s.rtt
    → (0 < (add_snap r s).minimum)
      × ((add_snap r s).minimum ≤ r.minimum)
      × ((add_snap r s).minimum ≤ s.rtt)
      × (((add_snap r s).minimum ≡ r.minimum) ⊎ ((add_snap r s).minimum ≡ s.rtt))
unfolding add_snap
add_snap_min r s h k = ground arith

-- Where an extreme value comes from: from before the list, or from one of its elements.
comes_from :
    (v a b : ℕ) (s : TcpInfo) (ss : List TcpInfo)
    → (a ≡ b) ⊎ (a ≡ s.rtt)
    → (v ≡ a) ⊎ Any (λ t. v ≡ t.rtt) ss
    → (v ≡ b) ⊎ Any (λ t. v ≡ t.rtt) (s ∷ ss)
comes_from v a b s ss (inl e) (inl f) = inl (f ∙ e)
comes_from v a b s ss (inr e) (inl f) = inr (inl (f ∙ e))
comes_from v a b s ss _ (inr f) = inr (inr f)

add_snaps_max :
    (ss : List TcpInfo) (r : Rtts)
    → (r.maximum ≤ (add_snaps r ss).maximum)
      × All (λ s. s.rtt ≤ (add_snaps r ss).maximum) ss
      × (((add_snaps r ss).maximum ≡ r.maximum) ⊎ Any (λ s. (add_snaps r ss).maximum ≡ s.rtt) ss)
unfolding add_snaps
add_snaps_max [] r = (omega arith, tt, inl refl)
add_snaps_max (s ∷ ss) r =
    let (a, b, c) = add_snaps_max ss (add_snap r s) in
    let (d, e, f) = add_snap_max r s in (omega arith, (omega arith, b), comes_from _ _ _ s ss f c)

add_snaps_min :
    (ss : List TcpInfo) (r : Rtts)
    → 0 < r.minimum
    → All IsPositive ss
    → (0 < (add_snaps r ss).minimum)
      × ((add_snaps r ss).minimum ≤ r.minimum)
      × All (λ s. (add_snaps r ss).minimum ≤ s.rtt) ss
      × (((add_snaps r ss).minimum ≡ r.minimum) ⊎ Any (λ s. (add_snaps r ss).minimum ≡ s.rtt) ss)
unfolding add_snaps
add_snaps_min [] r h k = (h, omega arith, tt, inl refl)
add_snaps_min (s ∷ ss) r h k =
    let (g, d, e, f) = add_snap_min r s h k.0 in
    let (z, a, b, c) = add_snaps_min ss (add_snap r s) g k.1 in
    (z, omega arith, (omega arith, b), comes_from _ _ _ s ss f c)

-- The minimum of the loop depends on where it starts by its `minimum` alone.
add_snaps_min-congr :
    (ss : List TcpInfo) (r q : Rtts)
    → r.minimum ≡ q.minimum
    → (add_snaps r ss).minimum ≡ (add_snaps q ss).minimum
unfolding add_snaps
add_snaps_min-congr [] r q e = e
add_snaps_min-congr (s ∷ ss) r q e =
    add_snaps_min-congr ss (add_snap r s) (add_snap q s) (unfold add_snap in ground arith)

add_snaps-append :
    (xs ys : List TcpInfo) (r : Rtts) → add_snaps r (xs ++ ys) ≡ add_snaps (add_snaps r xs) ys
unfolding add_snaps
add_snaps-append [] ys r = refl
add_snaps-append (x ∷ xs) ys r = add_snaps-append xs ys (add_snap r x)

add_snap_min-zero : (r : Rtts) (z : TcpInfo) → z.rtt ≡ 0 → (add_snap r z).minimum ≡ 0
unfolding add_snap
add_snap_min-zero r z h = ground arith

summarize-ok :
    (snaps : List TcpInfo) {i : Metrics}
    → summarize snaps ≡ ok i
    → (i.max_rtt ≡ (add_snaps no_rtts snaps).maximum / 1000)
      × (i.min_rtt ≡ (add_snaps no_rtts snaps).minimum / 1000)
      × (i.sum_rtt ≡ (add_snaps no_rtts snaps).sum / 1000)
      × (i.count_rtt ≡ (add_snaps no_rtts snaps).count)
      × (get_last? snaps ≡ some i.tcp_info)
unfolding summarize
summarize-ok snaps e = ground arith

All-scaled :
    (lo hi : ℕ) (ss : List TcpInfo)
    → All (λ s. lo ≤ s.rtt) ss
    → All (λ s. s.rtt ≤ hi) ss
    → All (λ s. (lo / 1000 ≤ s.rtt / 1000) × (s.rtt / 1000 ≤ hi / 1000)) ss
All-scaled lo hi [] h k = tt
All-scaled lo hi (s ∷ ss) h k = ((omega arith, omega arith), All-scaled lo hi ss h.1 k.1)

Any-scaled :
    (v : ℕ) (ss : List TcpInfo) → Any (λ s. v ≡ s.rtt) ss → Any (λ s. v / 1000 ≡ s.rtt / 1000) ss
Any-scaled v [] h = h
Any-scaled v (s ∷ ss) (inl e) = inl (ap (λ n. n / 1000) e)
Any-scaled v (s ∷ ss) (inr h) = inr (Any-scaled v ss h)

first_snap :
    (s : TcpInfo) → ((add_snap no_rtts s).minimum ≡ s.rtt) × ((add_snap no_rtts s).maximum ≡ s.rtt)
unfolding add_snap
first_snap s = ground arith

from_first :
    (v a : ℕ) (s : TcpInfo) (ss : List TcpInfo)
    → a ≡ s.rtt
    → (v ≡ a) ⊎ Any (λ t. v ≡ t.rtt) ss
    → Any (λ t. v ≡ t.rtt) (s ∷ ss)
from_first v a s ss e (inl f) = inl (f ∙ e)
from_first v a s ss e (inr f) = inr f

-- `lo` and `hi` bound every sample, in milliseconds, and each is the RTT of one of the samples.
abbrev pub AreExtremes : ℕ → ℕ → List TcpInfo → Type 0
AreExtremes lo hi snaps =
    All (λ s. (lo ≤ s.rtt / 1000) × (s.rtt / 1000 ≤ hi)) snaps
    × Any (λ s. lo ≡ s.rtt / 1000) snaps
    × Any (λ s. hi ≡ s.rtt / 1000) snaps

add_snaps-AreExtremes :
    (s : TcpInfo) (ss : List TcpInfo)
    → All IsPositive (s ∷ ss)
    → AreExtremes
        ((add_snaps no_rtts (s ∷ ss)).minimum / 1000)
        ((add_snaps no_rtts (s ∷ ss)).maximum / 1000)
        (s ∷ ss)
unfolding add_snaps
add_snaps-AreExtremes s ss k =
    let r = add_snap no_rtts s in
    let (f, g) = first_snap s in
    let (_, a, b, c) = add_snaps_min ss r (omega (arith, k.0)) k.1 in
    let (a', b', c') = add_snaps_max ss r in
    let lo = (add_snaps r ss).minimum in
    let hi = (add_snaps r ss).maximum in
    (
      All-scaled lo hi (s ∷ ss) (omega arith, b) (omega arith, b'),
      Any-scaled lo (s ∷ ss) (from_first lo _ s ss f c),
      Any-scaled hi (s ∷ ss) (from_first hi _ s ss g c'),
    )

-- If every sampled RTT is positive, the reported minimum and maximum bound every sample, in
-- milliseconds, and each is the RTT of one of the samples.
pub summarize_extremes :
    (snaps : List TcpInfo) (i : Metrics)
    → All IsPositive snaps
    → summarize snaps ≡ ok i
    → AreExtremes i.min_rtt i.max_rtt snaps
summarize_extremes [] i k e = absurd (unfold summarize in ground arith)
summarize_extremes (s ∷ ss) i k e =
    let (v, u, _, _, _) = summarize-ok (s ∷ ss) e in
    subst (λ lo. AreExtremes lo i.max_rtt (s ∷ ss)) (sym u)
      (subst (λ hi. AreExtremes ((add_snaps no_rtts (s ∷ ss)).minimum / 1000) hi (s ∷ ss)) (sym v)
        (add_snaps-AreExtremes s ss k))

-- Once a sample has an RTT of 0, the minimum forgets all samples before it: the reported minimum
-- is that of the later samples alone, however small the earlier ones and the 0 itself are.
pub summarize_min_forgets :
    (xs ys : List TcpInfo) (z y : TcpInfo) (i j : Metrics)
    → z.rtt ≡ 0
    → summarize (xs ++ z ∷ y ∷ ys) ≡ ok i
    → summarize (y ∷ ys) ≡ ok j
    → i.min_rtt ≡ j.min_rtt
summarize_min_forgets xs ys z y i j h e f =
    let (_, u, _, _, _) = summarize-ok (xs ++ z ∷ y ∷ ys) e in
    let (_, v, _, _, _) = summarize-ok (y ∷ ys) f in
    let r = add_snaps no_rtts xs in
    let w = add_snaps_min-congr (y ∷ ys) (add_snap r z) no_rtts (add_snap_min-zero r z h) in
    rw (u, v, add_snaps-append xs (z ∷ y ∷ ys) no_rtts) (ap (λ n. n / 1000) (unfold add_snaps in w))

abbrev pub total_rtt : List TcpInfo → ℕ
total_rtt [] = 0
total_rtt (s ∷ ss) = s.rtt + total_rtt ss

add_snaps_counts :
    (ss : List TcpInfo) (r : Rtts)
    → r.count < 2 ^ 32
    → r.sum < 2 ^ 32
    → ((add_snaps r ss).count ≡ (r.count + length ss) % 2 ^ 32)
      × ((add_snaps r ss).sum ≡ (r.sum + total_rtt ss) % 2 ^ 32)
unfolding add_snaps add_snap
add_snaps_counts [] r h k = (omega arith, omega arith)
add_snaps_counts (s ∷ ss) r h k =
    let (a, b) = add_snaps_counts ss (add_snap r s) (omega arith) (omega arith) in
    (omega (arith, a), omega (arith, b))

-- The count and the sum are those of all samples, modulo 2^32, the sum in milliseconds, and the
-- TCP state is that of the last sample.
pub summarize_counts :
    (snaps : List TcpInfo) (i : Metrics)
    → summarize snaps ≡ ok i
    → (i.count_rtt ≡ length snaps % 2 ^ 32)
      × (i.sum_rtt ≡ total_rtt snaps % 2 ^ 32 / 1000)
      × (get_last? snaps ≡ some i.tcp_info)
summarize_counts snaps i e =
    let (_, _, u, v, w) = summarize-ok snaps e in
    let (a, b) = add_snaps_counts snaps no_rtts (omega arith) (omega arith) in
    (omega arith, omega arith, w)
