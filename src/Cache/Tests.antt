-- ===== src/Cache/Tests.antt =====
-- A text cache and an image cache of two entries each, and the theorems on them.
use geruest.Prelude.{ℕ, refl, false, [], ◌∷◌, Option, some, Text, codes, arith}
use geruest.Prelude.Assoc.{lookup}
use geruest.Cache.TextResponse.{TextResponseCache, store}
use geruest.Cache.TextResponse.Limit.{IsWithin, store-IsWithin}
use geruest.Prelude.{text_eq_iff}
use geruest.Prelude.Unique.{member}
use geruest.Cache.DevAsset.{DevAssetCache}
use geruest.Cache.DevAsset.Queue.{IsQueued}

abbrev clock : Text → Option ℕ
clock path = some 7

abbrev two_entries : TextResponseCache
two_entries = record {
  entries =
      (codes "css|a", record { payload = codes "aaaa"; size_bytes = 4; mtime = some 7 })
      ∷ (codes "css|b", record { payload = codes "bbb"; size_bytes = 3; mtime = some 6 })
      ∷ [];
  total_bytes = 7;
}

two_entries-IsWithin : IsWithin 8 two_entries
unfolding IsWithin lookup
two_entries-IsWithin =
    (record { counted = refl; entries = (refl, refl, (refl, refl, tt)) }, omega arith)

store-IsWithin_example :
    IsWithin 8 (store clock (codes "css|c") (codes "c.css") (codes "ccccc") false 5 8 two_entries)
store-IsWithin_example =
    store-IsWithin clock (codes "css|c") (codes "c.css") (codes "ccccc") false 5 8 two_entries
      (omega arith) two_entries-IsWithin

abbrev images : DevAssetCache
images = record {
  merged = [];
  webp = (codes "/b", codes "bbb") ∷ (codes "/a", codes "aa") ∷ [];
  webp_order = codes "/a" ∷ codes "/b" ∷ [];
  webp_size_bytes = 5;
  max_webp_bytes = 6;
}

images-IsQueued : IsQueued images
unfolding lookup member
images-IsQueued = record {
  unique = (refl, (refl, tt));
  present = λ k. ground (arith, text_eq_iff (codes "/a") k, text_eq_iff (codes "/b") k);
  counted = refl;
}
