-- ===== src/Wildcard/Tests.antt =====
-- Runs of the matcher.
use geruest.Prelude.{◌≡◌, refl, ◌↔◌, true, false, some, none, codes, arith}
use geruest.Wildcard.{matches_wildcard_pattern, extract_wildcard_capture, apply_wildcard_capture}
use geruest.Wildcard.Meaning.{Matches}
use geruest.Wildcard.Matching.{matches_wildcard_pattern_iff}

matches_tests :
    (matches_wildcard_pattern (codes "/api/*/x*") (codes "/api/a/b/xyz") ≡ true)
    × (matches_wildcard_pattern (codes "/api/**/x") (codes "/api/x") ≡ false)
    × (matches_wildcard_pattern (codes "/api/*") (codes "/ap") ≡ false)
    × (matches_wildcard_pattern (codes "/a") (codes "/a") ≡ true)
unfolding matches_wildcard_pattern
matches_tests = (refl, refl, refl, refl)

capture_tests :
    (extract_wildcard_capture (codes "/old/*.html") (codes "/old/a/b.html") ≡ some (codes "a/b"))
    × (extract_wildcard_capture (codes "/old/*.html") (codes "/old/a") ≡ none)
    × (apply_wildcard_capture (codes "/new/*") (codes "a/b") ≡ codes "/new/a/b")
unfolding extract_wildcard_capture apply_wildcard_capture
capture_tests = (refl, refl, refl)

matches_wildcard_pattern_iff_example :
    (matches_wildcard_pattern (codes "/a*b") (codes "/axb") ≡ true)
    ↔ Matches (codes "/a*b") (codes "/axb")
matches_wildcard_pattern_iff_example =
    matches_wildcard_pattern_iff (codes "/a*b") (codes "/axb") (ground arith) (ground arith)
