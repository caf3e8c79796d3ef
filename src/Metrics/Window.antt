-- ===== src/Metrics/Window.antt =====
-- src/data/ServerMetrics.cpp: what a bucket counts, and what it contributes to the window of an hour.
pub mod Refinement
pub mod History
use geruest.Prelude.{
  ℕ, ◌+◌, ◌-◌, ◌*◌, ◌/◌, ◌%◌, ◌^◌, ◌≤◌, ◌<◌, ◌≡◌, ◌≢◌, ◌⊎◌, refl, sym, ap, ◌∙◌, inl, inr, Bool,
  true, false, ◌&&◌, not, List, [], ◌∷◌, ltb, leb, ◌==◌, ==_iff, length, if◌then◌else◌, if_elim,
  Bool-cases, arith,
}
use geruest.Metrics.{
  RollingBucket, Added, ServerMetrics, WindowMetrics, Operation, request_op, error_op, error_4xx_op,
  error_5xx_op, queue_rejection_op, accept_error_op, accept_emfile_op, file_open_failure_op,
  overload_op, queue_fill_op, increment_op, decrement_op, latency_op, operate, plus_32,
  epoch_minutes, new_bucket, renewed, apply_to_bucket, write_buckets,
}
use geruest.Metrics.Reports.{
  is_in_window, no_window, add_bucket, clear_all_metrics, sum_buckets, get_window_metrics_hour,
}

-- A sum over the first indices.
abbrev pub total : (ℕ → ℕ) → ℕ → ℕ
total f ℕ.zero = 0
total f (ℕ.suc n) = total f n + f n

pub total-same : (f g : ℕ → ℕ) (n : ℕ) → ((i : ℕ) → i < n → f i ≡ g i) → total f n ≡ total g n
total-same f g ℕ.zero h = refl
total-same f g (ℕ.suc n) h =
    omega (arith, total-same f g n (λ i lt. h i (omega (arith, lt))), h n (omega arith))

-- A sum grows by what one of its terms grows by.
pub total-grown :
    (f g : ℕ → ℕ) (n j d : ℕ)
    → j < n
    → g j ≡ f j + d
    → ((i : ℕ) → i ≢ j → g i ≡ f i)
    → total g n ≡ total f n + d
total-grown f g ℕ.zero j d lt h k = absurd (omega (arith, lt))
total-grown f g (ℕ.suc n) j d lt h k = elim (Bool-cases (j == n)) [
  | inl e ↦
      let at : j ≡ n = (==_iff j n).0 e in
      let before : total g n ≡ total f n =
        total-same g f n (λ i below. k i (λ e'. omega (arith, at, below, e'))) in
      let here : g n ≡ f n + d = ap g (sym at) ∙ h ∙ ap (λ m. f m + d) at in
      omega (arith, before, here)
  | inr e ↦
      let off : n ≢ j = λ e'. ground (arith, e, e', ==_iff j n) in
      omega (arith, total-grown f g n j d (omega (arith, lt, off)) h k, k n off)
]

-- What a bucket counts.
pub data Kind : Type 0 where
  a_request a_client_error a_server_error an_internal_error a_fill_level : Kind

module _ {F : Type 0} where
  abbrev pub bucket_count : Kind → RollingBucket F → ℕ
  bucket_count a_request b = b.requests
  bucket_count a_client_error b = b.errors_4xx
  bucket_count a_server_error b = b.errors_5xx
  bucket_count an_internal_error b = b.errors_int
  bucket_count a_fill_level b = b.fill_count

  abbrev pub added_count : Kind → Added F → ℕ
  added_count a_request a = a.req
  added_count a_client_error a = a.e4
  added_count a_server_error a = a.e5
  added_count an_internal_error a = a.ei
  added_count a_fill_level a = a.q_cnt

  abbrev pub window_count : Kind → WindowMetrics F → ℕ
  window_count a_request wm = wm.requests
  window_count a_client_error wm = wm.errors_4xx
  window_count a_server_error wm = wm.errors_5xx
  window_count an_internal_error wm = wm.errors_int
  window_count a_fill_level wm = wm.fill_count

  -- Whether an operation records a kind.
  abbrev pub amount : Operation F → Kind → ℕ
  amount request_op = λ k. elim k [ a_request ↦ 1 | _ ↦ 0 ]
  amount error_op = λ k. elim k [ an_internal_error ↦ 1 | _ ↦ 0 ]
  amount error_4xx_op = λ k. elim k [ a_client_error ↦ 1 | _ ↦ 0 ]
  amount error_5xx_op = λ k. elim k [ a_server_error ↦ 1 | _ ↦ 0 ]
  amount (queue_fill_op fill_pct) = λ k. elim k [ a_fill_level ↦ 1 | _ ↦ 0 ]
  amount _ = λ k. 0

-- The test of `getWindowMetricsHour`, of a minute.
abbrev pub in_hour : ℕ → ℕ → Bool
in_hour cur_m minute = ltb 0 minute && leb minute cur_m && ltb (cur_m - minute) 60

-- An older minute of the same bucket is out of the window.
in_hour_old :
    (cur_m e m : ℕ) → e < m → (e ≡ 0) ⊎ (e % 60 ≡ m % 60) → m ≤ cur_m → in_hour cur_m e ≡ false
in_hour_old cur_m e m lt (inl none_yet) le = ground (arith, none_yet)
in_hour_old cur_m e m lt (inr same) le = ground (arith, lt, same, le)

if_plus :
    (b : Bool) (x y : ℕ) → (if b then x + y else 0) ≡ (if b then x else 0) + (if b then y else 0)
if_plus true x y = refl
if_plus false x y = omega arith

pub if_zero : (b : Bool) → ◌≡◌ {A = ℕ} (if b then 0 else 0) 0
if_zero true = refl
if_zero false = refl

module _ {F : Type 0} (zero : F) (plus : F → F → F) where
  abbrev pub contribution : Kind → ℕ → RollingBucket F → ℕ
  contribution k cur_m b = if in_hour cur_m b.epoch then bucket_count k b else 0

  pub bucket_count-new : (k : Kind) (epoch : ℕ) → bucket_count k (new_bucket zero plus epoch) ≡ 0
  bucket_count-new a_request epoch = refl
  bucket_count-new a_client_error epoch = refl
  bucket_count-new a_server_error epoch = refl
  bucket_count-new an_internal_error epoch = refl
  bucket_count-new a_fill_level epoch = refl

  pub bucket_count-apply :
      (k : Kind) (b : RollingBucket F) (ep : ℕ) (a : Added F)
      → bucket_count k (apply_to_bucket zero plus b ep a)
        ≡ plus_32 (bucket_count k (renewed zero plus b ep)) (added_count k a)
  unfolding apply_to_bucket
  bucket_count-apply a_request b ep a = refl
  bucket_count-apply a_client_error b ep a = refl
  bucket_count-apply a_server_error b ep a = refl
  bucket_count-apply an_internal_error b ep a = refl
  bucket_count-apply a_fill_level b ep a = refl

  window_count-add :
      (k : Kind) (wm : WindowMetrics F) (b : RollingBucket F)
      → window_count k (add_bucket zero plus wm b) ≡ window_count k wm + bucket_count k b
  window_count-add a_request wm b = refl
  window_count-add a_client_error wm b = refl
  window_count-add a_server_error wm b = refl
  window_count-add an_internal_error wm b = refl
  window_count-add a_fill_level wm b = refl

  window_count-none : (k : Kind) → window_count k (no_window zero plus) ≡ 0
  window_count-none a_request = refl
  window_count-none a_client_error = refl
  window_count-none a_server_error = refl
  window_count-none an_internal_error = refl
  window_count-none a_fill_level = refl

  pub window_count-sum :
      (k : Kind) (cur_m : ℕ) (buckets : ℕ → RollingBucket F) (n : ℕ)
      → window_count k (sum_buckets zero plus (is_in_window zero plus cur_m) buckets n)
        ≡ total (λ i. contribution k cur_m (buckets i)) n
  unfolding sum_buckets
  window_count-sum k cur_m buckets ℕ.zero = window_count-none k
  window_count-sum k cur_m buckets (ℕ.suc n) =
      by_test (in_hour cur_m (buckets n).epoch) (window_count-sum k cur_m buckets n)
    where
      by_test :
          (b : Bool)
          → let wm = sum_buckets zero plus (is_in_window zero plus cur_m) buckets n in
            let before = total (λ i. contribution k cur_m (buckets i)) n in
            window_count k wm ≡ before
            → window_count k (if b then add_bucket zero plus wm (buckets n) else wm)
              ≡ before + (if b then bucket_count k (buckets n) else 0)
      by_test true h = window_count-add k _ (buckets n) ∙ ap (λ m. m + bucket_count k (buckets n)) h
      by_test false h = h ∙ omega arith

  -- A bucket that was last written at most in the minute `last`, with at most `n` of each kind.
  pub record IsBucket (last n i : ℕ) (b : RollingBucket F) : Type 0 where
    pub placed : (b.epoch ≡ 0) ⊎ (b.epoch % 60 ≡ i)
    pub past : b.epoch ≤ last
    pub few : (k : Kind) → bucket_count k b ≤ n

  abbrev pub AreBuckets : ℕ → ℕ → (ℕ → RollingBucket F) → Type 0
  AreBuckets last n buckets = (i : ℕ) → i < 60 → IsBucket last n i (buckets i)

  pub renewed-few :
      (k : Kind) (m last n : ℕ) (b : RollingBucket F)
      → IsBucket last n (m % 60) b
      → bucket_count k (renewed zero plus b m) ≤ n
  renewed-few k m last n b h =
      if_elim (λ r. bucket_count k r ≤ n) (b.epoch == m) b (new_bucket zero plus m) (λ _. h.few k)
        (λ _. omega (arith, bucket_count-new k m))

  -- The bucket that is written on is of the minute, and contributes as much as before.
  pub renewed-contribution :
      (k : Kind) (cur_m m last n : ℕ) (b : RollingBucket F)
      → IsBucket last n (m % 60) b
      → last ≤ m
      → m ≤ cur_m
      → ((renewed zero plus b m).epoch ≡ m)
        × ((if in_hour cur_m m then bucket_count k (renewed zero plus b m) else 0)
            ≡ contribution k cur_m b)
  renewed-contribution k cur_m m last n b h le now =
      if_elim
        (λ (r : RollingBucket F).
          (r.epoch ≡ m)
          × ((if in_hour cur_m m then bucket_count k r else 0) ≡ contribution k cur_m b))
        (b.epoch == m) b (new_bucket zero plus m)
        (λ e.
          let at : b.epoch ≡ m = (==_iff b.epoch m).0 e in
          (at, ap (λ minute. if in_hour cur_m minute then bucket_count k b else 0) (sym at)))
        (λ e.
          let older : b.epoch < m = ground (arith, e, h.past, le, ==_iff b.epoch m) in
          (
            refl,
            ap (λ c. if in_hour cur_m m then c else 0) (bucket_count-new k m)
                ∙ if_zero (in_hour cur_m m)
                ∙ ap (λ t. if t then bucket_count k b else 0)
                    (sym (in_hour_old cur_m b.epoch m older h.placed now)),
          ))

  pub apply-contribution :
      (k : Kind) (cur_m m last n : ℕ) (b : RollingBucket F) (a : Added F)
      → IsBucket last n (m % 60) b
      → last ≤ m
      → m ≤ cur_m
      → n + added_count k a < 2 ^ 32
      → contribution k cur_m (apply_to_bucket zero plus b m a)
        ≡ contribution k cur_m b + (if in_hour cur_m m then added_count k a else 0)
  unfolding apply_to_bucket
  apply-contribution k cur_m m last n b a h le now small =
      let r = renewed zero plus b m in
      let (minute, kept) = renewed-contribution k cur_m m last n b h le now in
      let fits : plus_32 (bucket_count k r) (added_count k a) ≡ bucket_count k r + added_count k a =
        omega (arith, renewed-few k m last n b h, small) in
      ap (λ e. if in_hour cur_m e then bucket_count k (apply_to_bucket zero plus b m a) else 0)
        minute
      ∙ ap (λ c. if in_hour cur_m m then c else 0) (bucket_count-apply k b m a ∙ fits)
      ∙ if_plus (in_hour cur_m m) (bucket_count k r) (added_count k a)
      ∙ ap (λ c. c + (if in_hour cur_m m then added_count k a else 0)) kept
