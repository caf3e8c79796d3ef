-- ===== src/Wildcard.antt =====
-- src/data/WildcardMatch.cpp: route patterns with `*`, the captured part, and its substitution.
-- The C string walk ends at the first NUL byte, so a pattern with a star sees `c_str`.
pub mod Meaning
pub mod Matching
pub mod Capture
mod Tests
use geruest.Prelude.{
  ℕ, ◌+◌, ◌-◌, Bool, true, false, ◌&&◌, ◌||◌, not, List, [], ◌∷◌, ◌++◌, Option, none, some, Text,
  codes, text_eq, contains, find_byte, starts_with, is_empty, length, take, drop, ltb, ◌==◌,
  if◌then◌else◌,
}

abbrev pub star : ℕ
star = b'*'

-- The bytes that a walk over `s.c_str()` reads.
unfoldable pub c_str : Text → Text
c_str [] = []
c_str (c ∷ s) = if c == 0 then [] else c ∷ c_str s

-- The last test of `matchWildcard`: the pattern's byte is no star, `rest` matches what is behind.
match_byte : ℕ → (Text → Bool) → Text → Bool
match_byte c rest [] = false
match_byte c rest (d ∷ t) = c == d && rest t

-- The loop over the text behind a run of stars, and the call after it at the text's end.
scan : (Text → Bool) → Text → Bool
scan rest [] = rest []
scan rest (d ∷ t) = rest (d ∷ t) || scan rest t

-- `after_stars` is the branch of a star: it drops the stars that follow; the call at the remaining
-- pattern, which begins with no star, goes to the last test of `match_wildcard`.
mutual
  unfolding match_byte scan

  pub match_wildcard : Text → Text → Bool
  match_wildcard [] t = is_empty t
  match_wildcard (c ∷ p) t = elim (c == star) [
    | true ↦ after_stars p t
    | false ↦ match_byte c (match_wildcard p) t
  ]

  pub after_stars : Text → Text → Bool
  after_stars [] t = true
  after_stars (c ∷ p) t = elim (c == star) [
    | true ↦ after_stars p t
    | false ↦ scan (match_byte c (match_wildcard p)) t
  ]

unfoldable pub matches_wildcard_pattern : Text → Text → Bool
unfolding match_wildcard after_stars match_byte scan c_str
matches_wildcard_pattern pattern path =
    if not (contains star pattern)
    then text_eq pattern path
    else match_wildcard (c_str pattern) (c_str path)

-- The tests of `extractWildcardCapture` behind the two searches, by its `prefix` and `suffix`.
capture_between : Text → Text → Text → Option Text
capture_between prefix suffix path =
    if ltb (length path) (length prefix + length suffix)
    then none
    else if not (text_eq (take (length prefix) path) prefix)
    then none
    else if not (is_empty suffix) && not (text_eq (drop (length path - length suffix) path) suffix)
    then none
    else some (take (length path - length prefix - length suffix) (drop (length prefix) path))

capture_from : Option ℕ → Text → Text → Option Text
unfolding capture_between
capture_from none pattern path = if text_eq pattern path then some [] else none
capture_from (some first_star) pattern path =
    if contains star (drop (first_star + 1) pattern)
    then none
    else capture_between (take first_star pattern) (drop (first_star + 1) pattern) path

unfoldable pub extract_wildcard_capture : Text → Text → Option Text
unfolding capture_from
extract_wildcard_capture pattern path = capture_from (find_byte star pattern) pattern path

-- The loop of `applyWildcardCapture`.
substitute : Text → Text → Text
substitute [] capture = []
substitute (c ∷ target) capture =
    (if c == star then capture else c ∷ []) ++ substitute target capture

unfoldable pub apply_wildcard_capture : Text → Text → Text
unfolding substitute
apply_wildcard_capture target capture =
    if not (contains star target) then target else substitute target capture

unfoldable pub is_likely_external_target : Text → Bool
is_likely_external_target target =
    starts_with (codes "http://") target
    || starts_with (codes "https://") target
    || starts_with (codes "//") target
