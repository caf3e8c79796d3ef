-- ===== src/Cache/TextResponse.antt =====
-- src/data/TextResponseCache.cpp. The lock makes each operation one step. The file system is the
-- function `mtime`: the time of a path, `none` where it reports an error.
pub mod Bounds
pub mod Limit
use geruest.Prelude.{
  ℕ, zero, suc, ◌+◌, ◌-◌, Bool, true, false, ◌&&◌, ◌||◌, not, List, [], ◌∷◌, ◌++◌, Option, none,
  some, Text, is_empty, length, ltb, ◌==◌, if◌then◌else◌,
}
use geruest.Prelude.Assoc.{lookup, insert, erase}

-- `mtime` and `hasMtime` as one optional time.
pub record Entry : Type 0 where
  pub payload : Text
  pub size_bytes : ℕ
  pub mtime : Option ℕ

pub record TextResponseCache : Type 0 where
  pub entries : List (Text × Entry)
  pub total_bytes : ℕ

pub make_key : Text → Text → Text
make_key content_type content_path = content_type ++ b'|' ∷ content_path

-- `_totalBytes -= size; _entries.erase(it)`, of an entry that is there.
pub drop_entry : Text → Entry → TextResponseCache → TextResponseCache
drop_entry key entry cache = record {
  entries = erase key cache.entries;
  total_bytes = cache.total_bytes - entry.size_bytes;
}

pub same_time : Option ℕ → Option ℕ → Bool
same_time (some s) (some t) = s == t
same_time _ _ = false

module _ (mtime : Text → Option ℕ) where
  -- `lookup`: an entry whose file has changed, or cannot be asked, is dropped.
  pub lookup_text : Text → Text → Bool → ℕ → ℕ → TextResponseCache → TextResponseCache × Option Text
  unfolding same_time
  lookup_text key content_path dev_mode max_entry_bytes max_total_bytes cache =
      if dev_mode || max_entry_bytes == 0 || max_total_bytes == 0
      then (cache, none)
      else elim (lookup key cache.entries) [
        | none ↦ (cache, none)
        | some entry ↦
            if not (same_time entry.mtime (mtime content_path))
            then (drop_entry key entry cache, none)
            else (cache, some entry.payload)
      ]

-- The eviction loop of `store`; the map shows its first entry. It ends with the map, if not
-- before.
pub evict : ℕ → ℕ → List (Text × Entry) → ℕ → TextResponseCache
evict size max_total [] total = record { entries = []; total_bytes = total }
evict size max_total ((k, e) ∷ entries) total =
    let rest = evict size max_total entries (total - e.size_bytes) in
    if ltb max_total (total + size)
    then rest
    else record { entries = (k, e) ∷ entries; total_bytes = total }

-- `if (existing != end) { … }`
pub drop_existing : Text → TextResponseCache → TextResponseCache
drop_existing key cache = elim (lookup key cache.entries) [
  | none ↦ cache
  | some entry ↦ drop_entry key entry cache
]

module _ (mtime : Text → Option ℕ) where
  pub store : Text → Text → Text → Bool → ℕ → ℕ → TextResponseCache → TextResponseCache
  store key content_path payload dev_mode max_entry_bytes max_total_bytes cache =
      if dev_mode
        || is_empty payload
        || max_entry_bytes == 0
        || max_total_bytes == 0
        || ltb max_entry_bytes (length payload)
      then cache
      else let cleared = drop_existing key cache in
        let evicted = evict (length payload) max_total_bytes cleared.entries cleared.total_bytes in
        record {
          entries =
              evicted.entries
              ++ (
                key,
                record {
                  payload = payload;
                  size_bytes = length payload;
                  mtime = mtime content_path;
                },
              )
                ∷ [];
          total_bytes = evicted.total_bytes + length payload;
        }
