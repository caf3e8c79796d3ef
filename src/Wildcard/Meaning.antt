-- ===== src/Wildcard/Meaning.antt =====
-- What a pattern means: a star stands for any text, any other byte for itself.
use geruest.Prelude.{◌≡◌, ◌≢◌, ◌⊎◌, ◌++◌, [], ◌∷◌, Text}
use geruest.Wildcard.{star}

abbrev pub Matches : Text → Text → Type 0
Matches [] t = t ≡ []
Matches (c ∷ p) t =
    ((c ≡ star) × ((u : Text) × (v : Text) × (t ≡ u ++ v) × Matches p v))
    ⊎ ((c ≢ star) × ((v : Text) × (t ≡ c ∷ v) × Matches p v))

-- A text with no NUL byte, which a C string shows whole.
abbrev pub NoNul : Text → Type 0
NoNul [] = Unit
NoNul (c ∷ s) = (c ≢ 0) × NoNul s
