-- ===== src/Metrics/Window/Refinement.antt =====
-- src/data/ServerMetrics.cpp: the sixty buckets stand for the list of all that was recorded.
use mathlib.Core.Path.{subst}
use geruest.Prelude.{
  ℕ, ◌+◌, ◌%◌, ◌^◌, ◌≤◌, ◌<◌, ◌≡◌, refl, sym, ap, ◌∙◌, inr, Bool, true, false, ◌==◌, ==_iff,
  if◌then◌else◌, if_elim, arith,
}
use geruest.Metrics.{
  RollingBucket, Added, ServerMetrics, Operation, operate, epoch_minutes, new_bucket, renewed,
  apply_to_bucket,
}
use geruest.Metrics.Window.{
  total, total-grown, Kind, added_count, amount, in_hour, contribution, bucket_count-apply,
  IsBucket, AreBuckets, renewed-few, apply-contribution,
}

module _ {F : Type 0} (zero : F) (plus : F → F → F) where
  abbrev pub written : ℕ → Added F → (ℕ → RollingBucket F) → ℕ → RollingBucket F
  written m a buckets i =
      if i == m % 60 then apply_to_bucket zero plus (buckets i) m a else buckets i

  renewed-epoch : (m : ℕ) (b : RollingBucket F) → (renewed zero plus b m).epoch ≡ m
  renewed-epoch m b =
      if_elim (λ (r : RollingBucket F). r.epoch ≡ m) (b.epoch == m) b (new_bucket zero plus m)
        (λ e. (==_iff b.epoch m).0 e) (λ e. refl)

  apply-IsBucket :
      (m last n : ℕ) (b : RollingBucket F) (a : Added F)
      → IsBucket zero plus last n (m % 60) b
      → n + 1 < 2 ^ 32
      → ((k : Kind) → added_count k a ≤ 1)
      → IsBucket zero plus m (n + 1) (m % 60) (apply_to_bucket zero plus b m a)
  unfolding apply_to_bucket
  apply-IsBucket m last n b a h small one = record {
    placed = inr (ap (λ e. e % 60) (renewed-epoch m b));
    past = omega (arith, renewed-epoch m b);
    few = λ k. omega (
      arith,
      bucket_count-apply zero plus k b m a,
      renewed-few zero plus k m last n b h,
      one k,
      small,
    );
  }

  pub weaken-IsBucket :
      (m last n i : ℕ) (b : RollingBucket F)
      → IsBucket zero plus last n i b
      → last ≤ m
      → IsBucket zero plus m (n + 1) i b
  weaken-IsBucket m last n i b h le = record {
    placed = h.placed;
    past = omega (arith, h.past, le);
    few = λ k. omega (arith, h.few k);
  }

  pub written-AreBuckets :
      (m last n : ℕ) (a : Added F) (buckets : ℕ → RollingBucket F)
      → AreBuckets zero plus last n buckets
      → n + 1 < 2 ^ 32
      → ((k : Kind) → added_count k a ≤ 1)
      → last ≤ m
      → AreBuckets zero plus m (n + 1) (written m a buckets)
  written-AreBuckets m last n a buckets h small one le i lt =
      if_elim (IsBucket zero plus m (n + 1) i) (i == m % 60) _ _
        (λ e.
          let at : m % 60 ≡ i = sym ((==_iff i (m % 60)).0 e) in
          subst (λ j. IsBucket zero plus m (n + 1) j (apply_to_bucket zero plus (buckets i) m a)) at
            (apply-IsBucket m last n (buckets i) a
              (subst (λ j. IsBucket zero plus last n j (buckets i)) (sym at) (h i lt)) small one))
        (λ _. weaken-IsBucket m last n i (buckets i) (h i lt) le)

  abbrev pub window : Kind → ℕ → (ℕ → RollingBucket F) → ℕ
  window k cur_m buckets = total (λ i. contribution zero plus k cur_m (buckets i)) 60

  -- A write adds what is added to the window, if its minute is in it.
  pub window-written :
      (k : Kind) (cur_m m last n : ℕ) (a : Added F) (buckets : ℕ → RollingBucket F)
      → AreBuckets zero plus last n buckets
      → last ≤ m
      → m ≤ cur_m
      → n + added_count k a < 2 ^ 32
      → window k cur_m (written m a buckets)
        ≡ window k cur_m buckets + (if in_hour cur_m m then added_count k a else 0)
  window-written k cur_m m last n a buckets h le now small =
      total-grown (λ i. contribution zero plus k cur_m (buckets i))
        (λ i. contribution zero plus k cur_m (written m a buckets i)) 60 (m % 60)
        (if in_hour cur_m m then added_count k a else 0) (omega arith)
        (ap (contribution zero plus k cur_m) (hit (m % 60 == m % 60) (ground arith))
          ∙ apply-contribution zero plus k cur_m m last n (buckets (m % 60)) a
              (h (m % 60) (omega arith)) le now small)
        (λ i off.
          ap (contribution zero plus k cur_m)
            (miss i (i == m % 60) (ground (arith, off, ==_iff i (m % 60)))))
    where
      hit :
          (t : Bool)
          → t ≡ true
          → (if t then apply_to_bucket zero plus (buckets (m % 60)) m a else buckets (m % 60))
            ≡ apply_to_bucket zero plus (buckets (m % 60)) m a
      hit t e =
          ap (λ t. if t then apply_to_bucket zero plus (buckets (m % 60)) m a else buckets (m % 60))
            e

      miss :
          (i : ℕ) (t : Bool)
          → t ≡ false
          → (if t then apply_to_bucket zero plus (buckets i) m a else buckets i) ≡ buckets i
      miss i t e = ap (λ t. if t then apply_to_bucket zero plus (buckets i) m a else buckets i) e

  -- An operation leaves the buckets, or it writes on the one of its minute what it records.
  pub data Effect (now : ℕ) (op : Operation F) (metrics : ServerMetrics F) : Type 0 where
    leaves :
        (operate zero plus now op metrics).min_buckets ≡ metrics.min_buckets
        → ((k : Kind) → amount op k ≡ 0)
        → Effect now op metrics
    writes :
        (a : Added F)
        → (operate zero plus now op metrics).min_buckets
          ≡ written (epoch_minutes now) a metrics.min_buckets
        → ((k : Kind) → added_count k a ≡ amount op k)
        → Effect now op metrics
