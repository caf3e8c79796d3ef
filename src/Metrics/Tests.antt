-- ===== src/Metrics/Tests.antt =====
-- Runs of the counters, and instances of the theorems about them. Natural numbers stand for fill
-- levels.
use geruest.Prelude.{ℕ, ◌+◌, ◌*◌, ◌≡◌, refl, [], ◌∷◌, ◌++◌, drop, ltb, if◌then◌else◌, arith}
use geruest.Metrics.{
  ServerMetrics, request_op, error_4xx_op, latency_op, lat_cap, epoch_seconds, new_bucket,
  new_sample, apply_to_bucket, write_buckets, record_request, record_4xx, record_queue_fill,
  record_latency, operate,
}
use geruest.Metrics.Reports.{
  ring, relevant_from, insert_sorted, sorted, stats_of, sum_buckets, get_window_metrics_hour,
  get_rolling_average_per_hour, get_latency_stats, clear_all_metrics,
}
use geruest.Metrics.Latency.{IsRing, latencies, latencies-record_latency}
use geruest.Metrics.Percentiles.{ArePercentiles, recent, get_latency_stats-ArePercentiles}
use geruest.Metrics.Window.{a_request, window_count}
use geruest.Metrics.Window.History.{History, after, recorded, get_window_metrics_hour-recorded}

metering : Unit {0}
unfolding apply_to_bucket write_buckets record_request record_4xx record_queue_fill record_latency
    operate ring relevant_from insert_sorted sorted stats_of sum_buckets get_window_metrics_hour
    get_rolling_average_per_hour get_latency_stats clear_all_metrics
metering = tt

abbrev add : ℕ → ℕ → ℕ
add a b = a + b

abbrev new : ServerMetrics ℕ
new = record {
  total_requests = 0;
  total_4xx = 0;
  total_5xx = 0;
  total_internal_errors = 0;
  queue_rejections = 0;
  accept_errors_total = 0;
  accept_emfile_total = 0;
  file_open_failures = 0;
  overload_http_responses = 0;
  active_handlers = 0;
  lifetime_uptime_baseline_seconds = 0;
  min_buckets = λ i. new_bucket 0 add 0;
  lat_samples = λ i. new_sample;
  lat_head = 0;
  lat_count = 0;
}

-- Requests in the minutes 100, 130, 160 and 161; the last takes the place of minute 101.
abbrev some_history : History 0 add
some_history =
    (161 * 60, request_op)
    ∷ (160 * 60 + 7, error_4xx_op)
    ∷ (160 * 60, request_op)
    ∷ (130 * 60, latency_op 5)
    ∷ (130 * 60, request_op)
    ∷ (100 * 60, request_op)
    ∷ []

-- Four requests in two hours, and an average of one per hour: of the bucket that minute 160 took over
-- from minute 100 one request is lost.
window_tests :
    (window_count a_request
        (get_window_metrics_hour 0 add (161 * 60 + 59) (after 0 add new some_history))
      ≡ 3)
    × (recorded 0 add a_request 161 some_history ≡ 3)
    × (window_count a_request
          (get_rolling_average_per_hour 0 add (161 * 60) 7200 (after 0 add new some_history))
        ≡ 1)
unfolding metering
window_tests = (refl, refl, refl)

abbrev timed : ServerMetrics ℕ
timed = after 0 add new ((7, latency_op 9) ∷ (6, latency_op 3) ∷ (5, latency_op 4) ∷ [])

latency_tests : get_latency_stats 0 add 10 60 timed ≡ record { p50 = 4; p95 = 9; p99 = 9 }
unfolding metering
latency_tests = refl

get_window_metrics_hour-recorded_example :
    window_count a_request
      (get_window_metrics_hour 0 add (161 * 60 + 59) (after 0 add new some_history))
    ≡ recorded 0 add a_request 161 some_history
get_window_metrics_hour-recorded_example =
    get_window_metrics_hour-recorded 0 add (161 * 60 + 59) some_history new a_request
      (omega arith, (omega arith, (omega arith, (omega arith, (omega arith, (omega arith, tt))))))
      (omega arith)

latencies-record_latency_example :
    (latencies 0 add (record_latency 0 add 7 9 new)
      ≡ (if ltb 0 lat_cap then latencies 0 add new else drop 1 (latencies 0 add new))
        ++ record { epoch_s = epoch_seconds 7; us = 9 } ∷ [])
    × IsRing (record_latency 0 add 7 9 new)
latencies-record_latency_example =
    latencies-record_latency 0 add 7 9 new
      (record { head_below = omega arith; count_within = omega arith })

get_latency_stats-ArePercentiles_example :
    ArePercentiles
      (recent (epoch_seconds 10) 4 (latencies 0 add timed))
      (get_latency_stats 0 add 10 4 timed)
get_latency_stats-ArePercentiles_example = get_latency_stats-ArePercentiles 0 add 10 4 timed
