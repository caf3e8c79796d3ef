-- ===== src/Metrics/Sorting.antt =====
-- The insertion sort that stands for `std::sort` in src/data/ServerMetrics.cpp: what it keeps, and
-- where a number of its result ranks.
use mathlib.Core.Path.{subst}
use geruest.Prelude.{
  ℕ, ◌+◌, ◌≤◌, ◌<◌, ◌≡◌, refl, ap, ◌∙◌, Bool, List, [], ◌∷◌, All, ltb, leb, length, get_or, if_elim,
  if◌then◌else◌, arith,
}
use geruest.Metrics.Reports.{insert_sorted, sorted}

module _ (P : ℕ → Type 0) where
  All-insert_sorted : (n : ℕ) (ms : List ℕ) → P n → All P ms → All P (insert_sorted n ms)
  unfolding insert_sorted
  All-insert_sorted n [] p ps = (p, tt)
  All-insert_sorted n (m ∷ ms) p (q, ps) =
      if_elim (All P) (leb n m) _ _ (λ _. (p, (q, ps))) (λ _. (q, All-insert_sorted n ms p ps))

  pub All-sorted : (ns : List ℕ) → All P ns → All P (sorted ns)
  unfolding sorted
  All-sorted [] ps = tt
  All-sorted (n ∷ ns) (p, ps) = All-insert_sorted n (sorted ns) p (All-sorted ns ps)

  pub All-get_or : (ns : List ℕ) (i : ℕ) → All P ns → i < length ns → P (get_or ns i 0)
  All-get_or [] i ps lt = absurd (omega (arith, lt))
  All-get_or (n ∷ ns) ℕ.zero (p, ps) lt = p
  All-get_or (n ∷ ns) (ℕ.suc i) (p, ps) lt = All-get_or ns i ps (omega (arith, lt))

abbrev pub IsSorted : List ℕ → Type 0
IsSorted [] = Unit
IsSorted (n ∷ ns) = All (λ m. n ≤ m) ns × IsSorted ns

All-below : (n m : ℕ) (ns : List ℕ) → n ≤ m → All (λ k. m ≤ k) ns → All (λ k. n ≤ k) ns
All-below n m [] le ps = tt
All-below n m (k ∷ ns) le (p, ps) = (omega (arith, le, p), All-below n m ns le ps)

insert_sorted-IsSorted : (n : ℕ) (ms : List ℕ) → IsSorted ms → IsSorted (insert_sorted n ms)
unfolding insert_sorted
insert_sorted-IsSorted n [] s = (tt, tt)
insert_sorted-IsSorted n (m ∷ ms) (ps, s) =
    if_elim IsSorted (leb n m) _ _
      (λ h. ((ground (arith, h), All-below n m ms (ground (arith, h)) ps), (ps, s)))
      (λ h.
        (All-insert_sorted (λ k. m ≤ k) n ms (ground (arith, h)) ps, insert_sorted-IsSorted n ms s))

pub sorted-IsSorted : (ns : List ℕ) → IsSorted (sorted ns)
unfolding sorted
sorted-IsSorted [] = tt
sorted-IsSorted (n ∷ ns) = insert_sorted-IsSorted n (sorted ns) (sorted-IsSorted ns)

pub length-insert_sorted : (n : ℕ) (ms : List ℕ) → length (insert_sorted n ms) ≡ ℕ.suc (length ms)
unfolding insert_sorted
length-insert_sorted n [] = refl
length-insert_sorted n (m ∷ ms) =
    if_elim (λ (ns : List ℕ). length ns ≡ ℕ.suc (ℕ.suc (length ms))) (leb n m) _ _ (λ _. refl)
      (λ _. ap ℕ.suc (length-insert_sorted n ms))

-- A sorted list does not fall from one index to a later one.
pub get_or-IsSorted :
    (ns : List ℕ) (i j : ℕ) → IsSorted ns → i ≤ j → j < length ns → get_or ns i 0 ≤ get_or ns j 0
get_or-IsSorted [] i j s le lt = absurd (omega (arith, lt))
get_or-IsSorted (n ∷ ns) ℕ.zero ℕ.zero s le lt = omega arith
get_or-IsSorted (n ∷ ns) ℕ.zero (ℕ.suc j) (ps, s) le lt =
    All-get_or (λ m. n ≤ m) ns j ps (omega (arith, lt))
get_or-IsSorted (n ∷ ns) (ℕ.suc i) ℕ.zero s le lt = absurd (omega (arith, le))
get_or-IsSorted (n ∷ ns) (ℕ.suc i) (ℕ.suc j) (ps, s) le lt =
    get_or-IsSorted ns i j s (omega (arith, le)) (omega (arith, lt))

-- How many numbers pass a test.
abbrev pub count : (ℕ → Bool) → List ℕ → ℕ
count f [] = 0
count f (n ∷ ns) = (if f n then 1 else 0) + count f ns

count-insert_sorted :
    (f : ℕ → Bool) (n : ℕ) (ms : List ℕ) → count f (insert_sorted n ms) ≡ count f (n ∷ ms)
unfolding insert_sorted
count-insert_sorted f n [] = refl
count-insert_sorted f n (m ∷ ms) =
    let rest = count-insert_sorted f n ms in
    if_elim (λ (ns : List ℕ). count f ns ≡ count f (n ∷ m ∷ ms)) (leb n m) _ _ (λ _. refl)
      (λ _. omega (arith, rest))

count-sorted : (f : ℕ → Bool) (ns : List ℕ) → count f (sorted ns) ≡ count f ns
unfolding sorted
count-sorted f [] = refl
count-sorted f (n ∷ ns) =
    let rest = count-sorted f ns in
    count-insert_sorted f n (sorted ns) ∙ ap (◌+◌ (if f n then 1 else 0)) rest

pub length-sorted : (ns : List ℕ) → length (sorted ns) ≡ length ns
unfolding sorted
length-sorted [] = refl
length-sorted (n ∷ ns) = length-insert_sorted n (sorted ns) ∙ ap ℕ.suc (length-sorted ns)

count_below_least : (n : ℕ) (ms : List ℕ) → All (λ m. n ≤ m) ms → count (λ m. ltb m n) ms ≡ 0
count_below_least n [] ps = refl
count_below_least n (m ∷ ms) (p, ps) = ground (arith, count_below_least n ms ps)

-- In a sorted list at most `i` numbers are below the one at `i`, and more than `i` not above it.
pub IsSorted-rank :
    (ns : List ℕ) (i : ℕ)
    → IsSorted ns
    → i < length ns
    → (count (λ m. ltb m (get_or ns i 0)) ns ≤ i) × (i < count (λ m. leb m (get_or ns i 0)) ns)
IsSorted-rank [] i s lt = absurd (omega (arith, lt))
IsSorted-rank (n ∷ ns) ℕ.zero (ps, s) lt = ground (arith, count_below_least n ns ps)
IsSorted-rank (n ∷ ns) (ℕ.suc i) (ps, s) lt =
    let within : i < length ns = omega (arith, lt) in
    let above : n ≤ get_or ns i 0 = All-get_or (λ m. n ≤ m) ns i ps within in
    let (under, over) = IsSorted-rank ns i s within in ground (arith, above, under, over)

pub sorted-rank :
    (ns : List ℕ) (i : ℕ)
    → i < length ns
    → (count (λ m. ltb m (get_or (sorted ns) i 0)) ns ≤ i)
      × (i < count (λ m. leb m (get_or (sorted ns) i 0)) ns)
sorted-rank ns i lt =
    let p = get_or (sorted ns) i 0 in
    let (under, over) =
      IsSorted-rank (sorted ns) i (sorted-IsSorted ns) (rw (length-sorted ns) lt) in
    (
      subst (λ k. k ≤ i) (count-sorted (λ m. ltb m p) ns) under,
      subst (λ k. i < k) (count-sorted (λ m. leb m p) ns) over,
    )
