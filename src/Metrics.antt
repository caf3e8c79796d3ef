-- ===== src/Metrics.antt =====
-- src/data/ServerMetrics.cpp: the counters of the server, the sixty buckets of the last minutes and
-- the ring of latencies. An array is a function of its index, an operation under the lock one step,
-- and the clock an argument: the seconds of the epoch. The sum of the queue's fill levels is a
-- floating-point number, whose type and addition are parameters.
pub mod Reports
pub mod Window
pub mod Latency
pub mod Percentiles
pub mod Sorting
mod Tests
use geruest.Prelude.{
  ℕ, ◌+◌, ◌-◌, ◌*◌, ◌/◌, ◌%◌, ◌^◌, Bool, ◌&&◌, List, [], ◌∷◌, ltb, leb, ◌==◌, if◌then◌else◌,
}

pub record RollingBucket (F : Type 0) : Type 0 where
  pub epoch : ℕ
  pub requests : ℕ
  pub errors_4xx : ℕ
  pub errors_5xx : ℕ
  pub errors_int : ℕ
  pub fill_sum : F
  pub fill_count : ℕ

pub record LatencySample : Type 0 where
  pub epoch_s : ℕ
  pub us : ℕ

-- `_activeHandlers` is a signed number, kept here in two's complement.
pub record ServerMetrics (F : Type 0) : Type 0 where
  pub total_requests : ℕ
  pub total_4xx : ℕ
  pub total_5xx : ℕ
  pub total_internal_errors : ℕ
  pub queue_rejections : ℕ
  pub accept_errors_total : ℕ
  pub accept_emfile_total : ℕ
  pub file_open_failures : ℕ
  pub overload_http_responses : ℕ
  pub active_handlers : ℕ
  pub lifetime_uptime_baseline_seconds : ℕ
  pub min_buckets : ℕ → RollingBucket F
  pub lat_samples : ℕ → LatencySample
  pub lat_head : ℕ
  pub lat_count : ℕ

-- `avg_queue_fill` is the sum divided by the count, if that is not 0.
pub record WindowMetrics (F : Type 0) : Type 0 where
  pub requests : ℕ
  pub errors_4xx : ℕ
  pub errors_5xx : ℕ
  pub errors_int : ℕ
  pub fill_sum : F
  pub fill_count : ℕ

-- `kLatCap`
abbrev pub lat_cap : ℕ
lat_cap = 10000

abbrev pub plus_32 : ℕ → ℕ → ℕ
plus_32 a b = (a + b) % 2 ^ 32

abbrev pub plus_64 : ℕ → ℕ → ℕ
plus_64 a b = (a + b) % 2 ^ 64

-- `nowEpochs_`: the seconds and the minutes.
abbrev pub epoch_seconds : ℕ → ℕ
epoch_seconds now = now % 2 ^ 32

abbrev pub epoch_minutes : ℕ → ℕ
epoch_minutes now = epoch_seconds now / 60

-- What a call of `writeBuckets_` adds.
pub record Added (F : Type 0) : Type 0 where
  pub req : ℕ
  pub e4 : ℕ
  pub e5 : ℕ
  pub ei : ℕ
  pub q_fill : F
  pub q_cnt : ℕ

-- The operations that record, with what they are given.
pub data Operation (F : Type 0) : Type 0 where
  request_op error_op error_4xx_op error_5xx_op : Operation F
  queue_rejection_op accept_error_op accept_emfile_op : Operation F
  file_open_failure_op overload_op : Operation F
  queue_fill_op : F → Operation F
  increment_op decrement_op : Operation F
  latency_op : ℕ → Operation F

abbrev pub new_sample : LatencySample
new_sample = record { epoch_s = 0; us = 0 }

module _ {F : Type 0} (zero : F) (plus : F → F → F) where
  abbrev pub new_bucket : ℕ → RollingBucket F
  new_bucket epoch = record {
    epoch = epoch;
    requests = 0;
    errors_4xx = 0;
    errors_5xx = 0;
    errors_int = 0;
    fill_sum = zero;
    fill_count = 0;
  }

  -- The start of `apply`: a bucket of another minute is emptied.
  abbrev pub renewed : RollingBucket F → ℕ → RollingBucket F
  renewed b ep = if b.epoch == ep then b else new_bucket ep

  -- `apply`
  unfoldable pub apply_to_bucket : RollingBucket F → ℕ → Added F → RollingBucket F
  apply_to_bucket b ep added = record {
    epoch = (renewed b ep).epoch;
    requests = plus_32 (renewed b ep).requests added.req;
    errors_4xx = plus_32 (renewed b ep).errors_4xx added.e4;
    errors_5xx = plus_32 (renewed b ep).errors_5xx added.e5;
    errors_int = plus_32 (renewed b ep).errors_int added.ei;
    fill_sum = plus (renewed b ep).fill_sum added.q_fill;
    fill_count = plus_32 (renewed b ep).fill_count added.q_cnt;
  }

  unfoldable pub write_buckets : ℕ → Added F → ServerMetrics F → ServerMetrics F
  unfolding apply_to_bucket
  write_buckets epoch_m added metrics = record metrics {
    min_buckets = λ i.
        if i == epoch_m % 60
        then apply_to_bucket (metrics.min_buckets i) epoch_m added
        else metrics.min_buckets i;
  }

  abbrev nothing_added : Added F
  nothing_added = record { req = 0; e4 = 0; e5 = 0; ei = 0; q_fill = zero; q_cnt = 0 }

  unfoldable pub record_request : ℕ → ServerMetrics F → ServerMetrics F
  unfolding write_buckets
  record_request now metrics =
      write_buckets (epoch_minutes now) (record nothing_added { req = 1 })
        (record metrics { total_requests = plus_64 metrics.total_requests 1 })

  unfoldable pub record_error : ℕ → ServerMetrics F → ServerMetrics F
  unfolding write_buckets
  record_error now metrics =
      write_buckets (epoch_minutes now) (record nothing_added { ei = 1 })
        (record metrics { total_internal_errors = plus_64 metrics.total_internal_errors 1 })

  unfoldable pub record_4xx : ℕ → ServerMetrics F → ServerMetrics F
  unfolding write_buckets
  record_4xx now metrics =
      write_buckets (epoch_minutes now) (record nothing_added { e4 = 1 })
        (record metrics { total_4xx = plus_64 metrics.total_4xx 1 })

  unfoldable pub record_5xx : ℕ → ServerMetrics F → ServerMetrics F
  unfolding write_buckets
  record_5xx now metrics =
      write_buckets (epoch_minutes now) (record nothing_added { e5 = 1 })
        (record metrics { total_5xx = plus_64 metrics.total_5xx 1 })

  unfoldable pub record_queue_rejection : ServerMetrics F → ServerMetrics F
  record_queue_rejection metrics = record metrics {
    queue_rejections = plus_64 metrics.queue_rejections 1;
  }

  unfoldable pub record_accept_error : ServerMetrics F → ServerMetrics F
  record_accept_error metrics = record metrics {
    accept_errors_total = plus_64 metrics.accept_errors_total 1;
  }

  unfoldable pub record_accept_emfile : ServerMetrics F → ServerMetrics F
  record_accept_emfile metrics = record metrics {
    accept_emfile_total = plus_64 metrics.accept_emfile_total 1;
  }

  unfoldable pub record_file_open_failure : ServerMetrics F → ServerMetrics F
  record_file_open_failure metrics = record metrics {
    file_open_failures = plus_64 metrics.file_open_failures 1;
  }

  unfoldable pub record_overload_http_response : ServerMetrics F → ServerMetrics F
  record_overload_http_response metrics = record metrics {
    overload_http_responses = plus_64 metrics.overload_http_responses 1;
  }

  unfoldable pub record_queue_fill : ℕ → F → ServerMetrics F → ServerMetrics F
  unfolding write_buckets
  record_queue_fill now fill_pct metrics =
      write_buckets (epoch_minutes now) (record nothing_added { q_fill = fill_pct; q_cnt = 1 })
        metrics

  unfoldable pub increment_active_handlers : ServerMetrics F → ServerMetrics F
  increment_active_handlers metrics = record metrics {
    active_handlers = plus_64 metrics.active_handlers 1;
  }

  unfoldable pub decrement_active_handlers : ServerMetrics F → ServerMetrics F
  decrement_active_handlers metrics = record metrics {
    active_handlers = plus_64 metrics.active_handlers (2 ^ 64 - 1);
  }

  unfoldable pub record_latency : ℕ → ℕ → ServerMetrics F → ServerMetrics F
  record_latency now us metrics = record metrics {
    lat_samples = λ i.
        if i == metrics.lat_head
        then record { epoch_s = epoch_seconds now; us = us }
        else metrics.lat_samples i;
    lat_head = (metrics.lat_head + 1) % lat_cap;
    lat_count =
        (if ltb metrics.lat_count lat_cap then metrics.lat_count + 1 else metrics.lat_count);
  }

  unfoldable pub operate : ℕ → Operation F → ServerMetrics F → ServerMetrics F
  unfolding record_request record_error record_4xx record_5xx record_queue_rejection
      record_accept_error record_accept_emfile record_file_open_failure
      record_overload_http_response record_queue_fill increment_active_handlers
      decrement_active_handlers record_latency
  operate now request_op = record_request now
  operate now error_op = record_error now
  operate now error_4xx_op = record_4xx now
  operate now error_5xx_op = record_5xx now
  operate now queue_rejection_op = record_queue_rejection
  operate now accept_error_op = record_accept_error
  operate now accept_emfile_op = record_accept_emfile
  operate now file_open_failure_op = record_file_open_failure
  operate now overload_op = record_overload_http_response
  operate now (queue_fill_op fill_pct) = record_queue_fill now fill_pct
  operate now increment_op = increment_active_handlers
  operate now decrement_op = decrement_active_handlers
  operate now (latency_op us) = record_latency now us
