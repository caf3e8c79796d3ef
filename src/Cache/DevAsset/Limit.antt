-- ===== src/Cache/DevAsset/Limit.antt =====
-- `putWebP` keeps the queue and the byte count of the image cache, and the limit.
use geruest.Prelude.{
  ◌+◌, ◌≤◌, ◌≡◌, ◌∙◌, true, false, List, [], ◌∷◌, ◌++◌, Option, none, some, Text, text_eq,
  text_eq_iff, is_empty, length, ltb, if◌then◌else◌, Bool-cases, Option-cases, inl, inr, if_elim,
  arith,
}
use geruest.Prelude.Assoc.{
  lookup, insert, erase, lookup-erase, lookup-erase_self, lookup-insert, lookup-insert_self,
}
use geruest.Prelude.Unique.{member, IsUnique, member-append, append-IsUnique}
use geruest.Cache.DevAsset.{
  DevAssetCache, drop_webp, evict_oldest, erase_first, drop_existing_webp, push_webp, put_webp,
  get_webp,
}
use geruest.Cache.DevAsset.Queue.{
  size_at, bytes_of, IsQueued, size_at-some, size_at-erase, bytes_of-erase, evict_oldest-IsQueued,
  evict_oldest-room,
}

member-erase_first :
    (j k : Text) (order : List Text)
    → IsUnique order
    → member k (erase_first j order) ≡ (if text_eq j k then false else member k order)
unfolding member erase_first
member-erase_first j k [] u = ground arith
member-erase_first j k (i ∷ order) (fresh, u) = elim (Bool-cases (text_eq i j)) [
  | inl hit ↦
      let same : i ≡ j = (text_eq_iff i j).0 hit in
      elim (Bool-cases (text_eq j k)) [
        | inl hit' ↦
            let there : j ≡ k = (text_eq_iff j k).0 hit' in
            rw (hit, hit') (rw (same ∙ there) at fresh)
        | inr miss ↦ rw (hit, miss) (ground (arith, text_eq_iff i k, text_eq_iff j k))
      ]
  | inr miss ↦ rw miss (
      ground
        (arith, member-erase_first j k order u, text_eq_iff i k, text_eq_iff j k, text_eq_iff i j))
]

erase_first-IsUnique :
    (j : Text) (order : List Text) → IsUnique order → IsUnique (erase_first j order)
unfolding member erase_first
erase_first-IsUnique j [] u = tt
erase_first-IsUnique j (i ∷ order) (fresh, u) = elim (Bool-cases (text_eq i j)) [
  | inl hit ↦ rw hit u
  | inr miss ↦
      rw miss (ground (arith, member-erase_first j i order u), erase_first-IsUnique j order u)
]

bytes_of-erase_first :
    (j : Text) (m : List (Text × Text)) (order : List Text)
    → IsUnique order
    → member j order ≡ true
    → bytes_of (erase j m) (erase_first j order) + size_at m j ≡ bytes_of m order
unfolding member erase_first
bytes_of-erase_first j m [] u h = cc
bytes_of-erase_first j m (i ∷ order) (fresh, u) h = elim (Bool-cases (text_eq i j)) [
  | inl hit ↦
      let same : i ≡ j = (text_eq_iff i j).0 hit in
      rw (hit, same) (omega (arith, bytes_of-erase j m order (rw same at fresh)))
  | inr miss ↦ rw miss (
      omega (
        arith,
        size_at-erase i j m (ground (arith, text_eq_iff i j, text_eq_iff j i)),
        bytes_of-erase_first j m order u (ground arith),
      ))
]

-- Taking a path out of the map and out of the middle of the queue.
drop_existing_webp-IsQueued :
    (j : Text) (cache : DevAssetCache) → IsQueued cache → IsQueued (drop_existing_webp j cache)
unfolding drop_existing_webp drop_webp
drop_existing_webp-IsQueued j cache q = elim (Option-cases (lookup j cache.webp)) [
  | inl e ↦ rw (drop_existing_webp, e) q
  | inr (bytes, e) ↦
      rw (drop_existing_webp, drop_webp, e)
        (record {
          unique = erase_first-IsUnique j cache.webp_order q.unique;
          present = λ k. ground (
            arith,
            q.present k,
            lookup-erase j k cache.webp,
            member-erase_first j k cache.webp_order q.unique,
          );
          counted = omega (
            arith,
            q.counted,
            size_at-some j bytes cache.webp e,
            bytes_of-erase_first j cache.webp cache.webp_order q.unique
                (ground (arith, q.present j, e)),
          );
        })
]

drop_existing_webp-absent :
    (j : Text) (cache : DevAssetCache) → lookup j (drop_existing_webp j cache).webp ≡ none
unfolding drop_existing_webp drop_webp
drop_existing_webp-absent j cache = elim (Option-cases (lookup j cache.webp)) [
  | inl e ↦ rw (drop_existing_webp, e) e
  | inr (bytes, e) ↦ rw (drop_existing_webp, drop_webp, e) (lookup-erase_self j cache.webp)
]

drop_existing_webp-shrinks :
    (j : Text) (cache : DevAssetCache)
    → (drop_existing_webp j cache).webp_size_bytes ≤ cache.webp_size_bytes
unfolding drop_existing_webp drop_webp
drop_existing_webp-shrinks j cache = elim (Option-cases (lookup j cache.webp)) [
  | inl e ↦ rw (drop_existing_webp, e) (omega arith)
  | inr (bytes, e) ↦ rw (drop_existing_webp, drop_webp, e) (omega arith)
]

bytes_of-append :
    (j bytes : Text) (m : List (Text × Text)) (order : List Text)
    → member j order ≡ false
    → bytes_of (insert j bytes m) (order ++ j ∷ []) ≡ bytes_of m order + length bytes
unfolding member
bytes_of-append j bytes m [] h =
    omega (arith, size_at-some j bytes (insert j bytes m) (lookup-insert_self j bytes m))
bytes_of-append j bytes m (i ∷ order) h =
    let apart : size_at (insert j bytes m) i ≡ size_at m i =
      ground (arith, lookup-insert j i bytes m, text_eq_iff i j, text_eq_iff j i) in
    omega (arith, apart, bytes_of-append j bytes m order (ground arith))

push_webp-IsQueued :
    (j bytes : Text) (cache : DevAssetCache)
    → IsQueued cache
    → lookup j cache.webp ≡ none
    → IsQueued (push_webp j bytes cache)
unfolding push_webp
push_webp-IsQueued j bytes cache q absent =
    let fresh : member j cache.webp_order ≡ false = ground (arith, q.present j, absent) in
    record {
      unique = append-IsUnique j cache.webp_order q.unique fresh;
      present = λ k. ground (
        arith,
        q.present k,
        lookup-insert j k bytes cache.webp,
        member-append k j cache.webp_order,
      );
      counted = omega (arith, q.counted, bytes_of-append j bytes cache.webp cache.webp_order fresh);
    }

-- Putting an image keeps the queue, which holds each path of the map once, and the exact count of
-- bytes.
pub put_webp-IsQueued :
    (path : Text) (image : Option Text) (cache : DevAssetCache)
    → IsQueued cache
    → IsQueued (put_webp path image cache)
unfolding put_webp
put_webp-IsQueued path none cache q = q
put_webp-IsQueued path (some bytes) cache q =
    let evicted = evict_oldest (length bytes) cache.webp_order cache in
    if_elim IsQueued (is_empty bytes) _ _ (λ _. q)
      λ _.
        if_elim IsQueued (ltb cache.max_webp_bytes (length bytes)) _ _ (λ _. q)
          λ _.
            push_webp-IsQueued path bytes (drop_existing_webp path evicted)
              (drop_existing_webp-IsQueued path evicted
                (evict_oldest-IsQueued (length bytes) cache.webp_order cache q))
              (drop_existing_webp-absent path evicted)

-- An image that is not empty and not larger than the limit is in the cache once it is put there,
-- and the total is within the limit then, also where the limit was lowered below it before.
pub get_webp-put_webp :
    (path bytes : Text) (cache : DevAssetCache)
    → IsQueued cache
    → is_empty bytes ≡ false
    → length bytes ≤ cache.max_webp_bytes
    → (get_webp (put_webp path (some bytes) cache) path ≡ some bytes)
      × ((put_webp path (some bytes) cache).webp_size_bytes ≤ cache.max_webp_bytes)
unfolding put_webp push_webp get_webp
get_webp-put_webp path bytes cache q filled small =
    let evicted = evict_oldest (length bytes) cache.webp_order cache in
    let fits : ltb cache.max_webp_bytes (length bytes) ≡ false = ground arith in
    rw (filled, fits)
      (
        lookup-insert_self path bytes (drop_existing_webp path evicted).webp,
        omega (
          arith,
          evict_oldest-room (length bytes) cache.webp_order cache q small,
          drop_existing_webp-shrinks path evicted,
        ),
      )
