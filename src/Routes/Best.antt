-- ===== src/Routes/Best.antt =====
-- src/data/RouteRegistry.cpp and src/data/GateRegistry.cpp: the loop that picks the best wildcard
-- pattern, the longest and of those the least. Both files write it out; the rule is any type.
pub mod Order
pub mod Choice
mod Tests
use geruest.Prelude.{
  ℕ, Bool, true, false, ◌&&◌, ◌||◌, not, List, [], ◌∷◌, Option, none, some, Text, length, ltb, ◌==◌,
  if◌then◌else◌, has_value,
}
use geruest.Wildcard.{matches_wildcard_pattern}

-- `operator<` of two strings.
unfoldable pub text_lt : Text → Text → Bool
text_lt [] [] = false
text_lt [] (d ∷ q) = true
text_lt (c ∷ p) [] = false
text_lt (c ∷ p) (d ∷ q) = ltb c d || (c == d && text_lt p q)

-- `bestPattern.has_value() && pattern < *bestPattern`
abbrev less_than_best : Text → Option Text → Bool
less_than_best pattern none = false
less_than_best pattern (some best) = text_lt pattern best

pub record Best {ℓ} (V : Type ℓ) : Type ℓ where
  pub best_pattern_length : ℕ
  pub best_pattern : Option Text
  pub best_match : Option V

module _ {ℓ} {V : Type ℓ} where
  abbrev pub nothing : Best V
  nothing = record { best_pattern_length = 0; best_pattern = none; best_match = none }

  -- The body of the loop behind the test of the pattern.
  unfoldable pub consider : Best V → Text → V → Best V
  consider best pattern rule =
      if not (has_value best.best_match)
        || ltb best.best_pattern_length (length pattern)
        || (length pattern == best.best_pattern_length && less_than_best pattern best.best_pattern)
      then record {
        best_pattern_length = length pattern;
        best_pattern = some pattern;
        best_match = some rule;
      }
      else best

  unfoldable pub consider_all : Text → Best V → List (Text × V) → Best V
  consider_all path best [] = best
  consider_all path best ((pattern, rule) ∷ routes) =
      consider_all path
        (if not (matches_wildcard_pattern pattern path) then best else consider best pattern rule)
        routes

  unfoldable pub find_best_wildcard : List (Text × V) → Text → Option V
  unfolding consider_all consider text_lt
  find_best_wildcard routes path = (consider_all path nothing routes).best_match
