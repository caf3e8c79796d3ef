-- ===== src/Metrics/Percentiles.antt =====
-- src/data/ServerMetrics.cpp: the percentiles that `getLatencyStats` reads off the sorted latencies.
use mathlib.Core.Path.{subst}
use geruest.Prelude.{
  ℕ, ◌+◌, ◌*◌, ◌/◌, ◌≤◌, ◌<◌, ◌≡◌, refl, List, [], ◌∷◌, All, ltb, leb, length, get_or,
  if◌then◌else◌, arith,
}
use geruest.Metrics.{LatencySample, ServerMetrics, epoch_seconds}
use geruest.Metrics.Latency.{latencies}
use geruest.Metrics.Reports.{
  LatencyStats, relevant_from, cutoff_of, insert_sorted, sorted, stats_of, get_latency_stats,
}
use geruest.Metrics.Sorting.{
  All-sorted, All-get_or, sorted-IsSorted, length-insert_sorted, get_or-IsSorted, length-sorted,
  count, sorted-rank,
}

abbrev pub AreOrdered : LatencyStats → Type 0
AreOrdered stats = (stats.p50 ≤ stats.p95) × (stats.p95 ≤ stats.p99)

stats_of-AreOrdered : (ns : List ℕ) → AreOrdered (stats_of ns)
unfolding stats_of sorted
stats_of-AreOrdered [] = (omega arith, omega arith)
stats_of-AreOrdered (n ∷ ns) =
    let some_left : length (insert_sorted n (sorted ns)) ≡ ℕ.suc (length (sorted ns)) =
      length-insert_sorted n (sorted ns) in
    let s = sorted-IsSorted (n ∷ ns) in
    (
      get_or-IsSorted (sorted (n ∷ ns)) _ _ s (omega arith) (omega (arith, some_left)),
      get_or-IsSorted (sorted (n ∷ ns)) _ _ s (omega arith) (omega (arith, some_left)),
    )

-- Each index that `getLatencyStats` reads is within the latencies, of which there are some.
stats_of-All :
    (P : ℕ → Type 0) (n : ℕ) (ns : List ℕ)
    → All P (n ∷ ns)
    → P (stats_of (n ∷ ns)).p50 × P (stats_of (n ∷ ns)).p95 × P (stats_of (n ∷ ns)).p99
unfolding stats_of sorted
stats_of-All P n ns ps =
    let some_left : length (insert_sorted n (sorted ns)) ≡ ℕ.suc (length (sorted ns)) =
      length-insert_sorted n (sorted ns) in
    let all = All-sorted P (n ∷ ns) ps in
    (
      All-get_or P (sorted (n ∷ ns)) _ all (omega (arith, some_left)),
      All-get_or P (sorted (n ∷ ns)) _ all (omega (arith, some_left)),
      All-get_or P (sorted (n ∷ ns)) _ all (omega (arith, some_left)),
    )

-- A number of a list.
abbrev IsOneOf : List ℕ → ℕ → Type 0
IsOneOf ns k = (i : ℕ) × (i < length ns) × (get_or ns i 0 ≡ k)

IsOneOf-behind : (n : ℕ) (ns ks : List ℕ) → All (IsOneOf ns) ks → All (IsOneOf (n ∷ ns)) ks
IsOneOf-behind n ns [] ps = tt
IsOneOf-behind n ns (k ∷ ks) ((i, lt, e), ps) =
    ((ℕ.suc i, omega (arith, lt), e), IsOneOf-behind n ns ks ps)

IsOneOf-self : (ns : List ℕ) → All (IsOneOf ns) ns
IsOneOf-self [] = tt
IsOneOf-self (n ∷ ns) = ((0, omega arith, refl), IsOneOf-behind n ns ns (IsOneOf-self ns))

-- A number of the list with at most so many percent of the numbers below it, and more than so many
-- not above it: that is one number.
abbrev pub IsPercentile : List ℕ → ℕ → ℕ → Type 0
IsPercentile ns percent p =
    IsOneOf ns p
    × (count (λ m. ltb m p) ns * 100 ≤ length ns * percent)
    × (length ns * percent < count (λ m. leb m p) ns * 100)

-- The 50th, 95th and 99th percentile, in this order, or zeros where there are no numbers.
abbrev pub ArePercentiles : List ℕ → LatencyStats → Type 0
ArePercentiles [] stats = stats ≡ record { p50 = 0; p95 = 0; p99 = 0 }
ArePercentiles (n ∷ ns) stats =
    AreOrdered stats
    × IsPercentile (n ∷ ns) 50 stats.p50
    × IsPercentile (n ∷ ns) 95 stats.p95
    × IsPercentile (n ∷ ns) 99 stats.p99

stats_of-ArePercentiles : (ns : List ℕ) → ArePercentiles ns (stats_of ns)
unfolding stats_of
stats_of-ArePercentiles [] = refl
stats_of-ArePercentiles (n ∷ ns) =
    let (p, q, r) = stats_of-All (IsOneOf (n ∷ ns)) n ns (IsOneOf-self (n ∷ ns)) in
    let total = length-sorted (n ∷ ns) in
    let (p_under, p_over) =
      sorted-rank (n ∷ ns) (length (sorted (n ∷ ns)) * 50 / 100) (omega (arith, total)) in
    let (q_under, q_over) =
      sorted-rank (n ∷ ns) (length (sorted (n ∷ ns)) * 95 / 100) (omega (arith, total)) in
    let (r_under, r_over) =
      sorted-rank (n ∷ ns) (length (sorted (n ∷ ns)) * 99 / 100) (omega (arith, total)) in
    (
      stats_of-AreOrdered (n ∷ ns),
      (p, omega (arith, total, p_under), omega (arith, total, p_over)),
      (q, omega (arith, total, q_under), omega (arith, total, q_over)),
      (r, omega (arith, total, r_under), omega (arith, total, r_over)),
    )

-- The latencies of the samples that were taken in the last seconds, whose end is the second `now`.
abbrev pub recent : ℕ → ℕ → List LatencySample → List ℕ
recent now_second window_seconds [] = []
recent now_second window_seconds (s ∷ samples) =
    if leb now_second (s.epoch_s + window_seconds)
    then s.us ∷ recent now_second window_seconds samples
    else recent now_second window_seconds samples

relevant_from-recent :
    (now window_seconds : ℕ) (samples : List LatencySample)
    → relevant_from (cutoff_of now window_seconds) samples
      ≡ recent (epoch_seconds now) window_seconds samples
unfolding relevant_from
relevant_from-recent now window_seconds [] = refl
relevant_from-recent now window_seconds (s ∷ samples) =
    ground (arith, relevant_from-recent now window_seconds samples)

module _ {F : Type 0} (zero : F) (plus : F → F → F) where
  -- The numbers that are answered are the 50th, 95th and 99th percentile of the latencies that the
  -- ring holds of the last seconds, or 0 where it holds none of them: at most so many percent of
  -- these latencies are below the number, more are not above it, and it is one of them.
  pub get_latency_stats-ArePercentiles :
      (now window_seconds : ℕ) (metrics : ServerMetrics F)
      → ArePercentiles
          (recent (epoch_seconds now) window_seconds (latencies zero plus metrics))
          (get_latency_stats zero plus now window_seconds metrics)
  unfolding get_latency_stats
  get_latency_stats-ArePercentiles now window_seconds metrics =
      subst (λ ns. ArePercentiles ns (get_latency_stats zero plus now window_seconds metrics))
        (relevant_from-recent now window_seconds (latencies zero plus metrics))
        (stats_of-ArePercentiles
          (relevant_from (cutoff_of now window_seconds) (latencies zero plus metrics)))
