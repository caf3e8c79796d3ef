-- ===== src/Cache.antt =====
-- src/data/TextResponseCache.cpp and src/data/DevAssetCache.cpp: two caches bounded by bytes.
pub mod TextResponse
pub mod DevAsset
mod Tests
