-- ===== src/Cache/DevAsset/Queue.antt =====
-- The queue of the image cache holds each path of the map once, and the byte count is that of the
-- map.
use mathlib.Core.Path.{subst}
use geruest.Prelude.{
  ℕ, ◌+◌, ◌-◌, ◌≤◌, ◌≡◌, refl, sym, false, List, [], ◌∷◌, none, some, Text, text_eq, text_eq_iff,
  text_eq_refl, length, ltb, has_value, Bool-cases, Option-cases, inl, inr, if_elim, arith,
}
use geruest.Prelude.Assoc.{lookup, erase, lookup-erase}
use geruest.Prelude.Unique.{member, IsUnique}
use geruest.Cache.DevAsset.{DevAssetCache, drop_webp, evict_oldest}

-- The bytes at a path.
abbrev pub size_at : List (Text × Text) → Text → ℕ
size_at m k = elim (lookup k m) [ none ↦ 0 | some bytes ↦ length bytes ]

abbrev pub bytes_of : List (Text × Text) → List Text → ℕ
bytes_of m [] = 0
bytes_of m (k ∷ order) = size_at m k + bytes_of m order

-- The queue `order` stands for the map `m` with `size` bytes.
pub record IsQueue (m : List (Text × Text)) (order : List Text) (size : ℕ) : Type 0 where
  pub unique : IsUnique order
  pub present : (k : Text) → has_value (lookup k m) ≡ member k order
  pub counted : size ≡ bytes_of m order

abbrev pub IsQueued : DevAssetCache → Type 0
IsQueued cache = IsQueue cache.webp cache.webp_order cache.webp_size_bytes

pub size_at-some :
    (k bytes : Text) (m : List (Text × Text)) → lookup k m ≡ some bytes → size_at m k ≡ length bytes
size_at-some k bytes m l = rw (size_at, l) refl

pub size_at-erase :
    (k j : Text) (m : List (Text × Text))
    → text_eq j k ≡ false
    → size_at (erase j m) k ≡ size_at m k
size_at-erase k j m d = ground (arith, lookup-erase j k m)

pub bytes_of-erase :
    (j : Text) (m : List (Text × Text)) (order : List Text)
    → member j order ≡ false
    → bytes_of (erase j m) order ≡ bytes_of m order
unfolding member
bytes_of-erase j m [] h = refl
bytes_of-erase j m (k ∷ order) h = omega (
  arith,
  size_at-erase k j m (ground (arith, text_eq_iff j k, text_eq_iff k j)),
  bytes_of-erase j m order (ground arith),
)

-- Taking the oldest path off the queue and out of the map.
drop-IsQueue :
    (j bytes : Text) (m : List (Text × Text)) (order : List Text) (size : ℕ)
    → IsQueue m (j ∷ order) size
    → lookup j m ≡ some bytes
    → IsQueue (erase j m) order (size - length bytes)
unfolding member
drop-IsQueue j bytes m order size q l = record {
  unique = q.unique.1;
  present = λ k. present_without k;
  counted = omega (arith, size_at-some j bytes m l, q.counted, bytes_of-erase j m order q.unique.0);
}
  where
    present_without : (k : Text) → has_value (lookup k (erase j m)) ≡ member k order
    present_without k =
        let both = q.present k in
        let apart = q.unique.0 in
        elim (Bool-cases (text_eq j k)) [
          | inl hit ↦
              let same : j ≡ k = (text_eq_iff j k).0 hit in
              rw (lookup-erase j k m, hit) (sym (rw same at apart))
          | inr miss ↦ rw (lookup-erase j k m, miss) (ground (arith, both))
        ]

pub drop_webp-max :
    (j : Text) (cache : DevAssetCache) → (drop_webp j cache).max_webp_bytes ≡ cache.max_webp_bytes
unfolding drop_webp
drop_webp-max j cache = elim (Option-cases (lookup j cache.webp)) [
  | inl e ↦ rw (drop_webp, e) refl
  | inr (bytes, e) ↦ rw (drop_webp, e) refl
]

dropped :
    (j : Text) (order : List Text) (cache : DevAssetCache)
    → IsQueue cache.webp (j ∷ order) cache.webp_size_bytes
    → IsQueue (drop_webp j cache).webp order (drop_webp j cache).webp_size_bytes
unfolding drop_webp member
dropped j order cache q = elim (Option-cases (lookup j cache.webp)) [
  | inl e ↦ absurd (ground (arith, q.present j, e, text_eq_refl j))
  | inr (bytes, e) ↦
      rw (drop_webp, e) (drop-IsQueue j bytes cache.webp order cache.webp_size_bytes q e)
]

-- The loop of evictions from a queue that stands for the map.
pub evict_oldest-IsQueued :
    (n : ℕ) (order : List Text) (cache : DevAssetCache)
    → IsQueue cache.webp order cache.webp_size_bytes
    → IsQueued (evict_oldest n order cache)
unfolding evict_oldest
evict_oldest-IsQueued n [] cache q = q
evict_oldest-IsQueued n (oldest ∷ order) cache q =
    if_elim IsQueued (ltb cache.max_webp_bytes (cache.webp_size_bytes + n)) _ _
      (λ _. evict_oldest-IsQueued n order (drop_webp oldest cache) (dropped oldest order cache q))
      (λ _. q)

pub evict_oldest-room :
    (n : ℕ) (order : List Text) (cache : DevAssetCache)
    → IsQueue cache.webp order cache.webp_size_bytes
    → n ≤ cache.max_webp_bytes
    → (evict_oldest n order cache).webp_size_bytes + n ≤ cache.max_webp_bytes
unfolding evict_oldest
evict_oldest-room n [] cache q h = omega (arith, q.counted)
evict_oldest-room n (oldest ∷ order) cache q h =
    if_elim {A = DevAssetCache} (λ c. c.webp_size_bytes + n ≤ cache.max_webp_bytes)
      (ltb cache.max_webp_bytes (cache.webp_size_bytes + n)) _ _
      (λ _.
        subst (λ m. (evict_oldest n order (drop_webp oldest cache)).webp_size_bytes + n ≤ m)
          (drop_webp-max oldest cache)
          (evict_oldest-room n order (drop_webp oldest cache) (dropped oldest order cache q)
            (subst (λ m. n ≤ m) (sym (drop_webp-max oldest cache)) h)))
      (λ fits. ground arith)
