-- ===== src/Routes/Best/Tests.antt =====
-- A map of three patterns, and the theorems on it.
use geruest.Prelude.{ℕ, ◌≡◌, refl, List, [], ◌∷◌, none, some, Text, codes, arith}
use geruest.Wildcard.{matches_wildcard_pattern}
use geruest.Routes.Best.{find_best_wildcard, text_lt, consider, consider_all}
use geruest.Routes.Best.Choice.{SameEntries, IsMap}

abbrev one_way : List (Text × ℕ)
one_way = (codes "/b*", 1) ∷ (codes "/a*", 2) ∷ (codes "/*a", 3) ∷ []

abbrev other_way : List (Text × ℕ)
other_way = (codes "/*a", 3) ∷ (codes "/a*", 2) ∷ (codes "/b*", 1) ∷ []

best_tests :
    (find_best_wildcard one_way (codes "/aa") ≡ some 3)
    × (find_best_wildcard one_way (codes "/ax") ≡ some 2)
    × (find_best_wildcard one_way (codes "/x") ≡ none)
unfolding find_best_wildcard consider_all consider text_lt matches_wildcard_pattern
best_tests = (refl, refl, refl)

same_entries : SameEntries one_way other_way
same_entries q w = (λ e. ground (arith, e), λ e. ground (arith, e))

is_map : IsMap one_way
is_map q v w h k = ground (arith, h, k)
