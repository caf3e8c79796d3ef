-- ===== src/Cache/TextResponse/Limit.antt =====
-- `lookup` and `store` keep the byte count of the text cache exact, and within the limit.
use geruest.Prelude.{
  ℕ, ◌+◌, ◌-◌, ◌≤◌, ◌≡◌, refl, Bool, false, ◌||◌, not, List, [], ◌∷◌, ◌++◌, Option, none, some,
  Text, text_eq, text_eq_iff, is_empty, length, ltb, ◌==◌, Bool-cases, Option-cases, inl, inr,
  if_elim, arith,
}
use geruest.Prelude.Assoc.{lookup, lookup-erase_self}
use geruest.Cache.TextResponse.{
  Entry, TextResponseCache, drop_entry, same_time, lookup_text, evict, drop_existing, store,
}
use geruest.Cache.TextResponse.Bounds.{size_of, AreEntries, IsCounted, drop_entry-IsCounted}

lookup_text-IsCounted :
    (mtime : Text → Option ℕ) (k path : Text) (dev : Bool) (max_entry max_total : ℕ)
    (cache : TextResponseCache)
    → IsCounted cache
    → IsCounted ((lookup_text mtime k path dev max_entry max_total cache).0)
unfolding lookup_text
lookup_text-IsCounted mtime k path dev max_entry max_total cache c =
    if_elim {A = TextResponseCache × Option Text} (λ r. IsCounted (r.0))
      (dev || max_entry == 0 || max_total == 0) _ _ (λ _. c)
      λ _. elim (Option-cases (lookup k cache.entries)) [
        | inl absent ↦ rw (absent) c
        | inr (e, present) ↦ rw present (
            if_elim {A = TextResponseCache × Option Text} (λ r. IsCounted (r.0))
              (not (same_time e.mtime (mtime path))) (drop_entry k e cache, none)
              (cache, some e.payload) (λ _. drop_entry-IsCounted k e cache c present) (λ _. c))
      ]

drop_existing-IsCounted :
    (k : Text) (cache : TextResponseCache) → IsCounted cache → IsCounted (drop_existing k cache)
unfolding drop_existing
drop_existing-IsCounted k cache c = elim (Option-cases (lookup k cache.entries)) [
  | inl absent ↦ rw (drop_existing, absent) c
  | inr (e, present) ↦ rw (drop_existing, present) (drop_entry-IsCounted k e cache c present)
]

drop_existing-none :
    (k : Text) (cache : TextResponseCache) → lookup k (drop_existing k cache).entries ≡ none
unfolding drop_existing drop_entry
drop_existing-none k cache = elim (Option-cases (lookup k cache.entries)) [
  | inl absent ↦ rw (drop_existing, absent) absent
  | inr (e, present) ↦ rw (drop_existing, present) (lookup-erase_self k cache.entries)
]

evict-IsCounted :
    (size max_total : ℕ) (m : List (Text × Entry)) (total : ℕ)
    → AreEntries m
    → total ≡ size_of m
    → IsCounted (evict size max_total m total)
unfolding evict
evict-IsCounted size max_total [] total h t = record { counted = t; entries = tt }
evict-IsCounted size max_total ((k, e) ∷ m) total (fresh, s, h) t =
    if_elim IsCounted (ltb max_total (total + size)) _ _
      (λ _. evict-IsCounted size max_total m (total - e.size_bytes) h (omega (arith, t)))
      (λ _. record { counted = t; entries = (fresh, s, h) })

evict-none :
    (k : Text) (size max_total : ℕ) (m : List (Text × Entry)) (total : ℕ)
    → lookup k m ≡ none
    → lookup k (evict size max_total m total).entries ≡ none
unfolding evict lookup
evict-none k size max_total [] total h = refl
evict-none k size max_total ((j, e) ∷ m) total h =
    if_elim {A = TextResponseCache} (λ c. lookup k c.entries ≡ none) (ltb max_total (total + size))
      _ _ (λ _. evict-none k size max_total m (total - e.size_bytes) (ground arith)) (λ _. h)

evict-room :
    (size max_total : ℕ) (m : List (Text × Entry)) (total : ℕ)
    → size ≤ max_total
    → total ≡ size_of m
    → (evict size max_total m total).total_bytes + size ≤ max_total
unfolding evict
evict-room size max_total [] total h t = omega (arith, t)
evict-room size max_total ((k, e) ∷ m) total h t =
    if_elim {A = TextResponseCache} (λ c. c.total_bytes + size ≤ max_total)
      (ltb max_total (total + size)) _ _
      (λ _. evict-room size max_total m (total - e.size_bytes) h (omega (arith, t)))
      (λ fits. ground arith)

size_of-append : (m n : List (Text × Entry)) → size_of (m ++ n) ≡ size_of m + size_of n
size_of-append [] n = omega arith
size_of-append ((k, e) ∷ m) n = omega (arith, size_of-append m n)

lookup-append_fresh :
    (j k : Text) (e : Entry) (m : List (Text × Entry))
    → lookup j m ≡ none
    → text_eq k j ≡ false
    → lookup j (m ++ (k, e) ∷ []) ≡ none
unfolding lookup
lookup-append_fresh j k e [] h d = ground (arith, d)
lookup-append_fresh j k e ((i, f) ∷ m) h d = ground (arith, lookup-append_fresh j k e m)

append-AreEntries :
    (k : Text) (e : Entry) (m : List (Text × Entry))
    → AreEntries m
    → lookup k m ≡ none
    → e.size_bytes ≡ length e.payload
    → AreEntries (m ++ (k, e) ∷ [])
unfolding lookup
append-AreEntries k e [] h absent s = (refl, s, tt)
append-AreEntries k e ((i, f) ∷ m) (fresh, t, h) absent s = elim (Bool-cases (text_eq i k)) [
  | inl hit ↦ cc
  | inr miss ↦ (
    lookup-append_fresh i k e m fresh (ground (arith, text_eq_iff i k, text_eq_iff k i)),
    t,
    append-AreEntries k e m h (ground arith) s,
  )
]

-- Whether the text cache is counted, and within the limit.
unfoldable pub IsWithin : ℕ → TextResponseCache → Type 0
IsWithin max_total cache = IsCounted cache × (cache.total_bytes ≤ max_total)

lookup_text-shrinks :
    (mtime : Text → Option ℕ) (k path : Text) (dev : Bool) (max_entry max_total : ℕ)
    (cache : TextResponseCache)
    → (lookup_text mtime k path dev max_entry max_total cache).0.total_bytes ≤ cache.total_bytes
unfolding lookup_text drop_entry
lookup_text-shrinks mtime k path dev max_entry max_total cache =
    elim (Option-cases (lookup k cache.entries)) [
      | inl absent ↦ rw absent (ground arith)
      | inr (e, present) ↦ rw present (ground arith)
    ]

-- A lookup keeps the cache's byte count exact, each key in it once, and the total within any
-- limit it was within.
pub lookup_text-IsWithin :
    (mtime : Text → Option ℕ) (k path : Text) (dev : Bool) (max_entry max_total limit : ℕ)
    (cache : TextResponseCache)
    → IsWithin limit cache
    → IsWithin limit ((lookup_text mtime k path dev max_entry max_total cache).0)
unfolding IsWithin
lookup_text-IsWithin mtime k path dev max_entry max_total limit cache (c, w) = (
  lookup_text-IsCounted mtime k path dev max_entry max_total cache c,
  omega (arith, lookup_text-shrinks mtime k path dev max_entry max_total cache),
)

stored-IsWithin :
    (k : Text) (e : Entry) (max_total : ℕ) (cache : TextResponseCache)
    → IsCounted cache
    → lookup k cache.entries ≡ none
    → e.size_bytes ≡ length e.payload
    → cache.total_bytes + e.size_bytes ≤ max_total
    → IsWithin max_total (record {
      entries = cache.entries ++ (k, e) ∷ [];
      total_bytes = cache.total_bytes + e.size_bytes;
    })
unfolding IsWithin
stored-IsWithin k e max_total cache c absent s w = (
  record {
    counted = omega (arith, c.counted, size_of-append cache.entries ((k, e) ∷ []));
    entries = append-AreEntries k e cache.entries c.entries absent s;
  },
  w,
)

-- Storing a payload not longer than the limit keeps the byte count exact, each key in the cache
-- once, and the total within the limit, however many entries go to make room.
pub store-IsWithin :
    (mtime : Text → Option ℕ) (k path payload : Text) (dev : Bool) (max_entry max_total : ℕ)
    (cache : TextResponseCache)
    → length payload ≤ max_total
    → IsWithin max_total cache
    → IsWithin max_total (store mtime k path payload dev max_entry max_total cache)
unfolding store IsWithin
store-IsWithin mtime k path payload dev max_entry max_total cache small (c, w) =
    let cleared = drop_existing k cache in
    let d = drop_existing-IsCounted k cache c in
    let size = length payload in
    if_elim (IsWithin max_total)
      (dev
        || is_empty payload
        || max_entry == 0
        || max_total == 0
        || ltb max_entry (length payload))
      cache _ (λ _. (c, w))
      (λ _.
        stored-IsWithin k (record { payload = payload; size_bytes = size; mtime = mtime path })
          max_total (evict size max_total cleared.entries cleared.total_bytes)
          (evict-IsCounted size max_total cleared.entries cleared.total_bytes d.entries d.counted)
          (evict-none k size max_total cleared.entries cleared.total_bytes
            (drop_existing-none k cache))
          refl (evict-room size max_total cleared.entries cleared.total_bytes small d.counted))
