-- ===== src/Metrics/Window/History.antt =====
-- src/data/ServerMetrics.cpp: the window of an hour counts the operations of the last sixty minutes.
use mathlib.Core.Path.{subst}
use geruest.Prelude.{
  ℕ, ◌+◌, ◌^◌, ◌≤◌, ◌<◌, ◌≡◌, refl, sym, ap, ◌∙◌, inl, List, [], ◌∷◌, length, if◌then◌else◌, arith,
}
use geruest.Metrics.{
  RollingBucket, Added, ServerMetrics, Operation, request_op, error_op, error_4xx_op, error_5xx_op,
  queue_rejection_op, accept_error_op, accept_emfile_op, file_open_failure_op, overload_op,
  queue_fill_op, increment_op, decrement_op, latency_op, operate, epoch_minutes, new_bucket,
  write_buckets, record_request, record_error, record_4xx, record_5xx, record_queue_fill,
}
use geruest.Metrics.Reports.{get_window_metrics_hour, clear_all_metrics}
use geruest.Metrics.Window.{
  total, Kind, a_request, a_client_error, a_server_error, an_internal_error, a_fill_level,
  added_count, window_count, amount, in_hour, if_zero, contribution, bucket_count-new,
  window_count-sum, AreBuckets,
}
use geruest.Metrics.Window.Refinement.{
  written, weaken-IsBucket, written-AreBuckets, window, window-written, Effect, leaves, writes,
}

by_kind :
    (P : Kind → Type 0)
    → P a_request
    → P a_client_error
    → P a_server_error
    → P an_internal_error
    → P a_fill_level
    → (k : Kind) → P k
by_kind P p q r s t a_request = p
by_kind P p q r s t a_client_error = q
by_kind P p q r s t a_server_error = r
by_kind P p q r s t an_internal_error = s
by_kind P p q r s t a_fill_level = t

module _ {F : Type 0} (zero : F) (plus : F → F → F) where
  abbrev nothing : Added F
  nothing = record { req = 0; e4 = 0; e5 = 0; ei = 0; q_fill = zero; q_cnt = 0 }

  operate-Effect :
      (now : ℕ) (op : Operation F) (metrics : ServerMetrics F) → Effect zero plus now op metrics
  unfolding operate write_buckets record_request record_error record_4xx record_5xx
      record_queue_fill
  operate-Effect now request_op metrics =
      writes (record nothing { req = 1 }) refl
        (by_kind (λ k. added_count k (record nothing { req = 1 }) ≡ amount {F = F} request_op k)
          refl refl refl refl refl)
  operate-Effect now error_op metrics =
      writes (record nothing { ei = 1 }) refl
        (by_kind (λ k. added_count k (record nothing { ei = 1 }) ≡ amount {F = F} error_op k) refl
          refl refl refl refl)
  operate-Effect now error_4xx_op metrics =
      writes (record nothing { e4 = 1 }) refl
        (by_kind (λ k. added_count k (record nothing { e4 = 1 }) ≡ amount {F = F} error_4xx_op k)
          refl refl refl refl refl)
  operate-Effect now error_5xx_op metrics =
      writes (record nothing { e5 = 1 }) refl
        (by_kind (λ k. added_count k (record nothing { e5 = 1 }) ≡ amount {F = F} error_5xx_op k)
          refl refl refl refl refl)
  operate-Effect now (queue_fill_op fill) metrics =
      writes (record nothing { q_fill = fill; q_cnt = 1 }) refl
        (by_kind
          (λ k.
            added_count k (record nothing { q_fill = fill; q_cnt = 1 })
            ≡ amount {F = F} (queue_fill_op fill) k)
          refl refl refl refl refl)
  operate-Effect now queue_rejection_op metrics = leaves refl (λ k. refl)
  operate-Effect now accept_error_op metrics = leaves refl (λ k. refl)
  operate-Effect now accept_emfile_op metrics = leaves refl (λ k. refl)
  operate-Effect now file_open_failure_op metrics = leaves refl (λ k. refl)
  operate-Effect now overload_op metrics = leaves refl (λ k. refl)
  operate-Effect now increment_op metrics = leaves refl (λ k. refl)
  operate-Effect now decrement_op metrics = leaves refl (λ k. refl)
  operate-Effect now (latency_op us) metrics = leaves refl (λ k. refl)

  amount-le : (op : Operation F) (k : Kind) → amount op k ≤ 1
  amount-le request_op k =
      by_kind (λ k. amount {F = F} request_op k ≤ 1) (omega arith) (omega arith) (omega arith)
        (omega arith) (omega arith) k
  amount-le error_op k =
      by_kind (λ k. amount {F = F} error_op k ≤ 1) (omega arith) (omega arith) (omega arith)
        (omega arith) (omega arith) k
  amount-le error_4xx_op k =
      by_kind (λ k. amount {F = F} error_4xx_op k ≤ 1) (omega arith) (omega arith) (omega arith)
        (omega arith) (omega arith) k
  amount-le error_5xx_op k =
      by_kind (λ k. amount {F = F} error_5xx_op k ≤ 1) (omega arith) (omega arith) (omega arith)
        (omega arith) (omega arith) k
  amount-le (queue_fill_op fill) k =
      by_kind (λ k. amount {F = F} (queue_fill_op fill) k ≤ 1) (omega arith) (omega arith)
        (omega arith) (omega arith) (omega arith) k
  amount-le queue_rejection_op k = omega arith
  amount-le accept_error_op k = omega arith
  amount-le accept_emfile_op k = omega arith
  amount-le file_open_failure_op k = omega arith
  amount-le overload_op k = omega arith
  amount-le increment_op k = omega arith
  amount-le decrement_op k = omega arith
  amount-le (latency_op us) k = omega arith

  -- What was done, the latest first, each with the time.
  abbrev pub History : Type 0
  History = List (ℕ × Operation F)

  -- The state after a history, from the cleared counters on.
  abbrev pub after : ServerMetrics F → History → ServerMetrics F
  after metrics [] = clear_all_metrics zero plus metrics
  after metrics ((now, op) ∷ history) = operate zero plus now op (after metrics history)

  -- The operations of a kind in the minutes of the hour that ends with the minute `cur_m`.
  abbrev pub recorded : Kind → ℕ → History → ℕ
  recorded k cur_m [] = 0
  recorded k cur_m ((now, op) ∷ history) =
      recorded k cur_m history + (if in_hour cur_m (epoch_minutes now) then amount op k else 0)

  -- The minutes do not go back.
  abbrev pub IsOrdered : ℕ → History → Type 0
  IsOrdered last [] = Unit
  IsOrdered last ((now, op) ∷ history) =
      (epoch_minutes now ≤ last) × IsOrdered (epoch_minutes now) history

  -- The buckets after a history hold it: no bucket is later than its last minute, or counts more than
  -- its length, and the window counts what was recorded.
  record Holds (last : ℕ) (history : History) (metrics : ServerMetrics F) : Type 0 where
    buckets : AreBuckets zero plus last (length history) metrics.min_buckets
    counts :
        (k : Kind) (cur_m : ℕ)
        → last ≤ cur_m
        → window zero plus k cur_m metrics.min_buckets ≡ recorded k cur_m history

  -- Buckets that are some others hold what these hold.
  Holds-of :
      (last n : ℕ) (history : History) (metrics : ServerMetrics F) (bs : ℕ → RollingBucket F)
      → metrics.min_buckets ≡ bs
      → n ≡ length history
      → AreBuckets zero plus last n bs
      → ((k : Kind) (cur_m : ℕ)
          → last ≤ cur_m
          → window zero plus k cur_m bs ≡ recorded k cur_m history)
      → Holds last history metrics
  Holds-of last n history metrics bs same size bounded counted = record {
    buckets =
        subst (AreBuckets zero plus last (length history)) (sym same)
          (subst (λ m. AreBuckets zero plus last m bs) size bounded);
    counts = λ k cur_m le. ap (window zero plus k cur_m) same ∙ counted k cur_m le;
  }

  Holds-step :
      (last now : ℕ) (op : Operation F) (history : History) (metrics : ServerMetrics F)
      → Effect zero plus now op metrics
      → Holds last history metrics
      → last ≤ epoch_minutes now
      → length history + 1 < 2 ^ 32
      → Holds (epoch_minutes now) ((now, op) ∷ history) (operate zero plus now op metrics)
  Holds-step last now op history metrics (leaves same none) h le small =
      Holds-of (epoch_minutes now) (length history + 1) ((now, op) ∷ history) _ metrics.min_buckets
        same (omega arith)
        (λ i lt.
          weaken-IsBucket zero plus (epoch_minutes now) last (length history) i _ (h.buckets i lt)
            le)
        λ k cur_m later.
          let nothing_new : (if in_hour cur_m (epoch_minutes now) then amount op k else 0) ≡ 0 =
            ap (λ n. if in_hour cur_m (epoch_minutes now) then n else 0) (none k)
            ∙ if_zero (in_hour cur_m (epoch_minutes now)) in
          omega (arith, nothing_new, h.counts k cur_m (omega (arith, le, later)))
  Holds-step last now op history metrics (writes a same amounts) h le small =
      let one : (k : Kind) → added_count k a ≤ 1 = λ k. omega (arith, amounts k, amount-le op k) in
      Holds-of (epoch_minutes now) (length history + 1) ((now, op) ∷ history) _
        (written zero plus (epoch_minutes now) a metrics.min_buckets) same (omega arith)
        (written-AreBuckets zero plus (epoch_minutes now) last (length history) a
          metrics.min_buckets h.buckets small one le)
        λ k cur_m later.
          window-written zero plus k cur_m (epoch_minutes now) last (length history) a
            metrics.min_buckets h.buckets le later (omega (arith, small, one k))
          ∙ ap (λ n. n + (if in_hour cur_m (epoch_minutes now) then added_count k a else 0))
              (h.counts k cur_m (omega (arith, le, later)))
          ∙ ap
              (λ n. recorded k cur_m history + (if in_hour cur_m (epoch_minutes now) then n else 0))
              (amounts k)

  cleared-counts :
      (k : Kind) (cur_m n : ℕ)
      → total (λ i. contribution zero plus k cur_m (new_bucket zero plus 0)) n ≡ 0
  cleared-counts k cur_m ℕ.zero = refl
  cleared-counts k cur_m (ℕ.suc n) = omega (arith, cleared-counts k cur_m n)

  after-Holds :
      (last : ℕ) (history : History) (metrics : ServerMetrics F)
      → IsOrdered last history
      → length history < 2 ^ 32
      → (m : ℕ) × (m ≤ last) × Holds m history (after metrics history)
  unfolding clear_all_metrics
  after-Holds last [] metrics ordered small = (
    0,
    omega arith,
    Holds-of 0 0 [] _ (λ i. new_bucket zero plus 0) refl refl
        (λ i lt. record {
          placed = inl refl;
          past = omega arith;
          few = λ k. omega (arith, bucket_count-new zero plus k 0);
        })
        (λ k cur_m le. cleared-counts k cur_m 60),
  )
  after-Holds last ((now, op) ∷ history) metrics (le, ordered) small =
      let (m, before, h) =
        after-Holds (epoch_minutes now) history metrics ordered (omega (arith, small)) in
      (
        epoch_minutes now,
        le,
        Holds-step m now op history (after metrics history)
            (operate-Effect now op (after metrics history)) h before (omega (arith, small)),
      )

  -- However the operations follow each other, if the minutes of the clock do not go back and there are
  -- fewer than 2 ^ 32 of them since the counters were cleared, each count of the window of an hour is
  -- the number of the operations of its kind in the sixty minutes that end now.
  pub get_window_metrics_hour-recorded :
      (now : ℕ) (history : History) (metrics : ServerMetrics F) (k : Kind)
      → IsOrdered (epoch_minutes now) history
      → length history < 2 ^ 32
      → window_count k (get_window_metrics_hour zero plus now (after metrics history))
        ≡ recorded k (epoch_minutes now) history
  unfolding get_window_metrics_hour
  get_window_metrics_hour-recorded now history metrics k ordered small =
      let (m, before, h) = after-Holds (epoch_minutes now) history metrics ordered small in
      window_count-sum zero plus k (epoch_minutes now) (after metrics history).min_buckets 60
      ∙ h.counts k (epoch_minutes now) before
