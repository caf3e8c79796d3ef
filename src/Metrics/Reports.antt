-- ===== src/Metrics/Reports.antt =====
-- src/data/ServerMetrics.cpp: what the counters say. Sums of the sixty 32-bit counters and the uptime
-- fit 64 bits. Latencies stay in microseconds: the source divides them by 1000.0.
use geruest.Prelude.{
  ℕ, ◌+◌, ◌-◌, ◌*◌, ◌/◌, ◌%◌, Bool, true, ◌&&◌, List, [], ◌∷◌, ltb, leb, ◌==◌, length, get_or,
  if◌then◌else◌,
}
use geruest.Metrics.{
  RollingBucket, LatencySample, ServerMetrics, WindowMetrics, lat_cap, plus_64, epoch_seconds,
  epoch_minutes, new_sample, new_bucket,
}

-- `LatencyStats`
pub record LatencyStats : Type 0 where
  pub p50 : ℕ
  pub p95 : ℕ
  pub p99 : ℕ

-- The loop of `getLatencyStats` from its index on, over the samples that are left.
unfoldable pub ring : (ℕ → LatencySample) → ℕ → ℕ → ℕ → List LatencySample
ring samples start i ℕ.zero = []
ring samples start i (ℕ.suc count) =
    samples ((start + i) % lat_cap) ∷ ring samples start (i + 1) count

-- `cutoff`
abbrev pub cutoff_of : ℕ → ℕ → ℕ
cutoff_of now window_seconds =
    if ltb window_seconds (epoch_seconds now) then epoch_seconds now - window_seconds else 0

unfoldable pub relevant_from : ℕ → List LatencySample → List ℕ
relevant_from cutoff [] = []
relevant_from cutoff (s ∷ samples) =
    let rest = relevant_from cutoff samples in if leb cutoff s.epoch_s then s.us ∷ rest else rest

-- `std::sort`
unfoldable pub insert_sorted : ℕ → List ℕ → List ℕ
insert_sorted n [] = n ∷ []
insert_sorted n (m ∷ ms) = let rest = insert_sorted n ms in if leb n m then n ∷ m ∷ ms else m ∷ rest

unfoldable pub sorted : List ℕ → List ℕ
unfolding insert_sorted
sorted [] = []
sorted (n ∷ ns) = insert_sorted n (sorted ns)

unfoldable pub stats_of : List ℕ → LatencyStats
unfolding sorted
stats_of [] = record { p50 = 0; p95 = 0; p99 = 0 }
stats_of (n ∷ ns) =
    let relevant = sorted (n ∷ ns) in
    let count = length relevant in
    record {
      p50 = get_or relevant (count * 50 / 100) 0;
      p95 = get_or relevant (count * 95 / 100) 0;
      p99 = get_or relevant (count * 99 / 100) 0;
    }

module _ {F : Type 0} (zero : F) (plus : F → F → F) where
  abbrev pub no_window : WindowMetrics F
  no_window = record {
    requests = 0;
    errors_4xx = 0;
    errors_5xx = 0;
    errors_int = 0;
    fill_sum = zero;
    fill_count = 0;
  }

  abbrev pub add_bucket : WindowMetrics F → RollingBucket F → WindowMetrics F
  add_bucket wm b = record {
    requests = wm.requests + b.requests;
    errors_4xx = wm.errors_4xx + b.errors_4xx;
    errors_5xx = wm.errors_5xx + b.errors_5xx;
    errors_int = wm.errors_int + b.errors_int;
    fill_sum = plus wm.fill_sum b.fill_sum;
    fill_count = wm.fill_count + b.fill_count;
  }

  -- The loop over the first buckets, those that `counts` takes.
  unfoldable pub sum_buckets :
      (RollingBucket F → Bool) → (ℕ → RollingBucket F) → ℕ → WindowMetrics F
  sum_buckets counts buckets ℕ.zero = no_window
  sum_buckets counts buckets (ℕ.suc n) =
      let wm = sum_buckets counts buckets n in
      if counts (buckets n) then add_bucket wm (buckets n) else wm

  abbrev pub is_in_window : ℕ → RollingBucket F → Bool
  is_in_window cur_m b = ltb 0 b.epoch && leb b.epoch cur_m && ltb (cur_m - b.epoch) 60

  unfoldable pub get_window_metrics_hour : ℕ → ServerMetrics F → WindowMetrics F
  unfolding sum_buckets
  get_window_metrics_hour now metrics =
      sum_buckets (is_in_window (epoch_minutes now)) metrics.min_buckets 60

  unfoldable pub get_rolling_average_per_hour : ℕ → ℕ → ServerMetrics F → WindowMetrics F
  unfolding get_window_metrics_hour sum_buckets
  get_rolling_average_per_hour now uptime metrics =
      let hours = uptime / 3600 in
      let all = sum_buckets (λ b. true) metrics.min_buckets 60 in
      if hours == 0 then get_window_metrics_hour now metrics else record all {
        requests = all.requests / hours;
        errors_4xx = all.errors_4xx / hours;
        errors_5xx = all.errors_5xx / hours;
        errors_int = all.errors_int / hours;
      }

  abbrev pub start_of : ServerMetrics F → ℕ
  start_of metrics = (metrics.lat_head + lat_cap - metrics.lat_count) % lat_cap

  unfoldable pub get_latency_stats : ℕ → ℕ → ServerMetrics F → LatencyStats
  unfolding ring relevant_from stats_of
  get_latency_stats now window_seconds metrics = stats_of (
      relevant_from (cutoff_of now window_seconds)
        (ring metrics.lat_samples (start_of metrics) 0 metrics.lat_count))

  unfoldable pub get_total_errors : ServerMetrics F → ℕ
  get_total_errors metrics =
      plus_64 (plus_64 metrics.total_4xx metrics.total_5xx) metrics.total_internal_errors

  -- `clearAllMetrics_`
  unfoldable pub clear_all_metrics : ServerMetrics F → ServerMetrics F
  clear_all_metrics metrics = record metrics {
    total_requests = 0;
    total_4xx = 0;
    total_5xx = 0;
    total_internal_errors = 0;
    queue_rejections = 0;
    accept_errors_total = 0;
    accept_emfile_total = 0;
    file_open_failures = 0;
    overload_http_responses = 0;
    active_handlers = 0;
    min_buckets = λ i. new_bucket zero plus 0;
    lat_head = 0;
    lat_count = 0;
    lat_samples = λ i. new_sample;
  }
