-- ===== src/Cache/DevAsset.antt =====
-- src/data/DevAssetCache.cpp: merged assets, and image bytes that are dropped first in, first out.
-- The lock makes each operation one step; the message to the error stream is left out.
pub mod Queue
pub mod Limit
use geruest.Prelude.{
  ℕ, ◌+◌, ◌-◌, Bool, List, [], ◌∷◌, ◌++◌, Option, none, some, Text, text_eq, is_empty, length, ltb,
  has_value, if◌then◌else◌,
}
use geruest.Prelude.Assoc.{lookup, insert, erase}

pub record DevAssetCache : Type 0 where
  pub merged : List (Text × Text)
  pub webp : List (Text × Text)
  pub webp_order : List Text
  pub webp_size_bytes : ℕ
  pub max_webp_bytes : ℕ

pub put_merged_asset : Text → Text → DevAssetCache → DevAssetCache
put_merged_asset relative_path content cache = record cache {
  merged = insert relative_path content cache.merged;
}

pub has_merged_asset : DevAssetCache → Text → Bool
has_merged_asset cache relative_path = has_value (lookup relative_path cache.merged)

-- The empty text where there is none.
pub get_merged_asset : DevAssetCache → Text → Text
get_merged_asset cache relative_path = elim (lookup relative_path cache.merged) [
  | none ↦ []
  | some content ↦ content
]

-- `_webpSizeBytes -= it->second->size(); _webp.erase(it)`, of an entry that is there.
pub drop_webp : Text → DevAssetCache → DevAssetCache
drop_webp path cache = elim (lookup path cache.webp) [
  | none ↦ cache
  | some bytes ↦ record cache {
    webp = erase path cache.webp;
    webp_size_bytes = cache.webp_size_bytes - length bytes;
  }
]

-- The eviction loop of `putWebP`, over `_webpOrder`.
pub evict_oldest : ℕ → List Text → DevAssetCache → DevAssetCache
evict_oldest entry_size [] cache = record cache { webp_order = [] }
evict_oldest entry_size (oldest ∷ order) cache =
    let rest = evict_oldest entry_size order (drop_webp oldest cache) in
    if ltb cache.max_webp_bytes (cache.webp_size_bytes + entry_size)
    then rest
    else record cache { webp_order = oldest ∷ order }

-- The loop that erases a path from `_webpOrder`, where it stands first.
pub erase_first : Text → List Text → List Text
erase_first path [] = []
erase_first path (other ∷ order) =
    let rest = erase_first path order in if text_eq other path then order else other ∷ rest

-- `if (existing != end) { … }`
pub drop_existing_webp : Text → DevAssetCache → DevAssetCache
drop_existing_webp path cache =
    if has_value (lookup path cache.webp)
    then record (drop_webp path cache) { webp_order = erase_first path cache.webp_order }
    else cache

-- The three lines behind it.
pub push_webp : Text → Text → DevAssetCache → DevAssetCache
push_webp path bytes cache = record cache {
  webp = insert path bytes cache.webp;
  webp_order = cache.webp_order ++ path ∷ [];
  webp_size_bytes = cache.webp_size_bytes + length bytes;
}

-- `putWebP`; a null pointer is `none`.
pub put_webp : Text → Option Text → DevAssetCache → DevAssetCache
put_webp path none cache = cache
put_webp path (some bytes) cache =
    if is_empty bytes
    then cache
    else if ltb cache.max_webp_bytes (length bytes)
    then cache
    else push_webp path bytes
        (drop_existing_webp path (evict_oldest (length bytes) cache.webp_order cache))

pub has_webp : DevAssetCache → Text → Bool
has_webp cache path = has_value (lookup path cache.webp)

pub get_webp : DevAssetCache → Text → Option Text
get_webp cache path = lookup path cache.webp

pub set_max_webp_bytes : ℕ → DevAssetCache → DevAssetCache
set_max_webp_bytes max_bytes cache = record cache { max_webp_bytes = max_bytes }

pub clear : DevAssetCache → DevAssetCache
clear cache = record cache { merged = []; webp = []; webp_order = []; webp_size_bytes = 0 }
