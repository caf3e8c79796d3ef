-- ===== src/Cache/TextResponse/Bounds.antt =====
-- The byte count of the text cache is exact, and stays within the limit.
use geruest.Prelude.{
  ℕ, ◌+◌, ◌≡◌, refl, List, [], ◌∷◌, none, some, Text, text_eq, text_eq_iff, length, Bool-cases, inl,
  inr, arith,
}
use geruest.Prelude.Assoc.{lookup, erase, lookup-erase}
use geruest.Cache.TextResponse.{Entry, TextResponseCache, drop_entry}

abbrev pub size_of : List (Text × Entry) → ℕ
size_of [] = 0
size_of ((k, e) ∷ entries) = e.size_bytes + size_of entries

-- Each key stands once, and each entry knows the size of its payload.
abbrev pub AreEntries : List (Text × Entry) → Type 0
AreEntries [] = Unit
AreEntries ((k, e) ∷ entries) =
    (lookup k entries ≡ none) × (e.size_bytes ≡ length e.payload) × AreEntries entries

pub record IsCounted (cache : TextResponseCache) : Type 0 where
  pub counted : cache.total_bytes ≡ size_of cache.entries
  pub entries : AreEntries cache.entries

erase-none : (k : Text) (m : List (Text × Entry)) → lookup k m ≡ none → erase k m ≡ m
unfolding lookup erase
erase-none k [] h = refl
erase-none k ((j, e) ∷ m) h = ground (arith, erase-none k m)

size_of-erase :
    (k : Text) (e : Entry) (m : List (Text × Entry))
    → AreEntries m
    → lookup k m ≡ some e
    → size_of (erase k m) + e.size_bytes ≡ size_of m
unfolding lookup erase
size_of-erase k e [] h l = cc
size_of-erase k e ((j, d) ∷ m) (fresh, size, h) l = elim (Bool-cases (text_eq j k)) [
  | inl hit ↦
      let same : j ≡ k = (text_eq_iff j k).0 hit in
      let gone : erase k m ≡ m = erase-none k m (rw same at fresh) in rw (hit, gone) (ground arith)
  | inr miss ↦ rw miss (omega (arith, size_of-erase k e m h (ground arith)))
]

erase-AreEntries : (k : Text) (m : List (Text × Entry)) → AreEntries m → AreEntries (erase k m)
unfolding erase
erase-AreEntries k [] h = tt
erase-AreEntries k ((j, d) ∷ m) (fresh, size, h) = elim (Bool-cases (text_eq j k)) [
  | inl hit ↦ rw hit (erase-AreEntries k m h)
  | inr miss ↦ rw miss (ground (arith, lookup-erase k j m), size, erase-AreEntries k m h)
]

pub drop_entry-IsCounted :
    (k : Text) (e : Entry) (cache : TextResponseCache)
    → IsCounted cache
    → lookup k cache.entries ≡ some e
    → IsCounted (drop_entry k e cache)
unfolding drop_entry
drop_entry-IsCounted k e cache c l = record {
  counted = omega (arith, size_of-erase k e cache.entries c.entries l, c.counted);
  entries = erase-AreEntries k cache.entries c.entries;
}
