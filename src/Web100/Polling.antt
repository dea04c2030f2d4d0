-- ===== src/Web100/Polling.antt =====
-- When the polling loop of `measureUntilContextCancellation` samples, and what `StopMeasuring`
-- then returns.
use ndt_server.Common.{
  ◌≡◌, refl, ◌↔◌, true, List, [], ◌∷◌, ◌++◌, some, Result, err, arith, codes, get_last?,
}
use ndt_server.Tcp.{TcpInfo}
use ndt_server.Web100.{
  Poll, Metrics, Measurer, poll_snaps, start_measuring, stop_measuring, measure_via_polling,
  measure_until_context_cancellation, summarize, or_no_data, from_channel,
}

poll_snaps_cancelled :
    (ps qs : List Poll) (p : Poll) → p.cancelled ≡ true → poll_snaps (ps ++ p ∷ qs) ≡ poll_snaps ps
unfolding poll_snaps
poll_snaps_cancelled [] qs p h = rw h
poll_snaps_cancelled (q ∷ ps) qs p h = rw (poll_snaps_cancelled ps qs p h)

abbrev pub no_data : Result Metrics
no_data = err (codes "No data returned from web100.MeasureViaPolling due to nil")

get_last?-cons : (x : TcpInfo) (xs : List TcpInfo) → (y : TcpInfo) × (get_last? (x ∷ xs) ≡ some y)
get_last?-cons x [] = (x, refl)
get_last?-cons x (y ∷ xs) = get_last?-cons y xs

no_data_iff : (ss : List TcpInfo) → (or_no_data (from_channel (summarize ss)) ≡ no_data) ↔ (ss ≡ [])
unfolding summarize
no_data_iff [] = (λ _. refl, λ _. refl)
no_data_iff (x ∷ xs) =
    let (y, e) = get_last?-cons x xs in (λ h. ground arith, λ h. absurd (ground arith))

-- No sample is taken at or after the first round at which the context is cancelled: the rounds
-- that follow do not change what the connection's measurement returns.
pub stop-start_cancelled :
    (ps qs : List Poll) (p : Poll) (m : Measurer)
    → p.cancelled ≡ true
    → stop_measuring (start_measuring (ps ++ p ∷ qs) m) ≡ stop_measuring (start_measuring ps m)
unfolding stop_measuring start_measuring measure_via_polling measure_until_context_cancellation
stop-start_cancelled ps qs p m h = rw (poll_snaps_cancelled ps qs p h)

-- Stopping a measurement fails exactly when no sample was taken before the context was cancelled.
pub stop_measuring_iff :
    (ps : List Poll) (m : Measurer)
    → (stop_measuring (start_measuring ps m) ≡ no_data) ↔ (poll_snaps ps ≡ [])
unfolding stop_measuring start_measuring measure_via_polling measure_until_context_cancellation
stop_measuring_iff ps m = no_data_iff (poll_snaps ps)
