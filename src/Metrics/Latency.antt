-- ===== src/Metrics/Latency.antt =====
-- src/data/ServerMetrics.cpp: the ring of latencies, and the percentiles that are read off it.
use geruest.Prelude.{
  ℕ, ◌+◌, ◌-◌, ◌%◌, ◌≤◌, ◌<◌, ◌≡◌, ◌≢◌, refl, sym, ap, ◌∙◌, Bool, true, false, List, [], ◌∷◌, ◌++◌,
  ltb, ◌==◌, drop, if◌then◌else◌, arith,
}
use geruest.Metrics.{LatencySample, ServerMetrics, lat_cap, epoch_seconds, record_latency}
use geruest.Metrics.Reports.{ring, start_of}

-- Two rings with the same samples at the places that are read.
ring-agree :
    (xs ys : ℕ → LatencySample) (s t i j n : ℕ)
    → ((k : ℕ) → k < n → xs ((s + (i + k)) % lat_cap) ≡ ys ((t + (j + k)) % lat_cap))
    → ring xs s i n ≡ ring ys t j n
unfolding ring
ring-agree xs ys s t i j ℕ.zero h = refl
ring-agree xs ys s t i j (ℕ.suc n) h =
    ap (λ x. x ∷ ring xs s (i + 1) n) (same 0 i j (omega arith) (omega arith) (omega arith))
    ∙ ap (λ zs. ys ((t + j) % lat_cap) ∷ zs)
        (ring-agree xs ys s t (i + 1) (j + 1) n (λ k lt.
          same (k + 1) (i + 1 + k) (j + 1 + k) (omega arith) (omega arith) (omega (arith, lt))))
  where
    same :
        (k a b : ℕ)
        → a ≡ i + k
        → b ≡ j + k
        → k < ℕ.suc n
        → xs ((s + a) % lat_cap) ≡ ys ((t + b) % lat_cap)
    same k a b at bt lt =
        ap (λ m. xs ((s + m) % lat_cap)) at ∙ h k lt ∙ ap (λ m. ys ((t + m) % lat_cap)) (sym bt)

ring-snoc :
    (xs : ℕ → LatencySample) (s i n : ℕ)
    → ring xs s i (ℕ.suc n) ≡ ring xs s i n ++ xs ((s + (i + n)) % lat_cap) ∷ []
unfolding ring
ring-snoc xs s i ℕ.zero = ap (λ k. xs ((s + k) % lat_cap) ∷ []) (omega arith)
ring-snoc xs s i (ℕ.suc n) =
    let last : i + 1 + n ≡ i + ℕ.suc n = omega arith in
    ap (λ ys. xs ((s + i) % lat_cap) ∷ ys) (ring-snoc xs s (i + 1) n)
    ∙ ap (λ k. xs ((s + i) % lat_cap) ∷ (ring xs s (i + 1) n ++ xs ((s + k) % lat_cap) ∷ [])) last

-- Another start and another count from there read the same places.
ring-from :
    (xs : ℕ → LatencySample) (s t i j n : ℕ)
    → ((k : ℕ) → k < n → (s + (i + k)) % lat_cap ≡ (t + (j + k)) % lat_cap)
    → ring xs s i n ≡ ring xs t j n
ring-from xs s t i j n h = ring-agree xs xs s t i j n (λ k lt. ap xs (h k lt))

-- The write of a sample at a place that is not read.
abbrev written : (ℕ → LatencySample) → ℕ → LatencySample → ℕ → LatencySample
written xs head x i = if i == head then x else xs i

written_other :
    (xs : ℕ → LatencySample) (head : ℕ) (x : LatencySample) (i : ℕ)
    → i ≢ head
    → written xs head x i ≡ xs i
written_other xs head x i h = ground (arith, h)

written_same : (xs : ℕ → LatencySample) (head : ℕ) (x : LatencySample) → written xs head x head ≡ x
written_same xs head x = ground arith

-- The head and the count are within the ring.
pub record IsRing {F : Type 0} (metrics : ServerMetrics F) : Type 0 where
  pub head_below : metrics.lat_head < lat_cap
  pub count_within : metrics.lat_count ≤ lat_cap

-- A ring with room takes a sample behind the others.
ring_room :
    (xs : ℕ → LatencySample) (head count : ℕ) (x : LatencySample)
    → head < lat_cap
    → count < lat_cap
    → ring
        (written xs head x)
        (((head + 1) % lat_cap + lat_cap - (count + 1)) % lat_cap)
        0
        (count + 1)
      ≡ ring xs ((head + lat_cap - count) % lat_cap) 0 count ++ x ∷ []
ring_room xs head count x below room =
    let start = ((head + 1) % lat_cap + lat_cap - (count + 1)) % lat_cap in
    let more : count + 1 ≡ ℕ.suc count = omega arith in
    let last : (start + (0 + count)) % lat_cap ≡ head = omega (arith, below, room) in
    ap (λ n. ring (written xs head x) start 0 n) more
    ∙ ring-snoc (written xs head x) start 0 count
    ∙ ap (λ y. ring (written xs head x) start 0 count ++ y ∷ [])
        (ap (written xs head x) last ∙ written_same xs head x)
    ∙ ap (λ ys. ys ++ x ∷ [])
        (ring-agree (written xs head x) xs start ((head + lat_cap - count) % lat_cap) 0 0 count
          λ k lt.
            written_other xs head x _ (λ e. omega (arith, below, room, lt, e))
            ∙ ap xs (omega (arith, below, room, lt)))

-- A full ring takes a sample in the place of its oldest one.
ring_full :
    (xs : ℕ → LatencySample) (head count : ℕ) (x : LatencySample)
    → head < lat_cap
    → count ≡ lat_cap
    → ring (written xs head x) (((head + 1) % lat_cap + lat_cap - count) % lat_cap) 0 count
      ≡ drop 1 (ring xs ((head + lat_cap - count) % lat_cap) 0 count) ++ x ∷ []
unfolding ring
ring_full xs head ℕ.zero x below full = absurd (omega (arith, full))
ring_full xs head (ℕ.suc count) x below full =
    let start = ((head + 1) % lat_cap + lat_cap - ℕ.suc count) % lat_cap in
    let last : (start + (0 + count)) % lat_cap ≡ head = omega (arith, below, full) in
    ring-snoc (written xs head x) start 0 count
    ∙ ap (λ y. ring (written xs head x) start 0 count ++ y ∷ [])
        (ap (written xs head x) last ∙ written_same xs head x)
    ∙ ap (λ ys. ys ++ x ∷ [])
        (ring-agree (written xs head x) xs start ((head + lat_cap - ℕ.suc count) % lat_cap) 0
          (0 + 1) count
          λ k lt.
            written_other xs head x _ (λ e. omega (arith, below, full, lt, e))
            ∙ ap xs (omega (arith, below, full, lt)))

ring_step :
    (b : Bool) (xs : ℕ → LatencySample) (head count : ℕ) (x : LatencySample)
    → ltb count lat_cap ≡ b
    → head < lat_cap
    → count ≤ lat_cap
    → let count' = if b then count + 1 else count in
      let before = ring xs ((head + lat_cap - count) % lat_cap) 0 count in
      ring (written xs head x) (((head + 1) % lat_cap + lat_cap - count') % lat_cap) 0 count'
      ≡ (if b then before else drop 1 before) ++ x ∷ []
ring_step true xs head count x h below within = ring_room xs head count x below (ground (arith, h))
ring_step false xs head count x h below within =
    ring_full xs head count x below (ground (arith, h, within))

module _ {F : Type 0} (zero : F) (plus : F → F → F) where
  -- The latencies that are kept, the oldest first.
  abbrev pub latencies : ServerMetrics F → List LatencySample
  latencies metrics = ring metrics.lat_samples (start_of zero plus metrics) 0 metrics.lat_count

  -- `recordLatency` puts a sample behind the latencies that are kept, and drops the oldest of them
  -- where there are as many as the ring has places; the head and the count stay within the ring.
  pub latencies-record_latency :
      (now us : ℕ) (metrics : ServerMetrics F)
      → IsRing metrics
      → (latencies (record_latency zero plus now us metrics)
          ≡ (if ltb metrics.lat_count lat_cap
              then latencies metrics
              else drop 1 (latencies metrics))
            ++ record { epoch_s = epoch_seconds now; us = us } ∷ [])
        × IsRing (record_latency zero plus now us metrics)
  unfolding record_latency
  latencies-record_latency now us metrics h = (
    ring_step (ltb metrics.lat_count lat_cap) metrics.lat_samples metrics.lat_head metrics.lat_count
        (record { epoch_s = epoch_seconds now; us = us }) refl h.head_below h.count_within,
    record { head_below = omega arith; count_within = ground (arith, h.count_within) },
  )
