-- ===== src/Prelude/Unique.antt =====
-- Lists of texts without repetition.
use mathlib.Core.Path.{◌≡◌, refl}
use mathlib.Core.Bool.{Bool, false, ◌||◌}
use mathlib.Core.List.{List, [], ◌∷◌, ◌++◌}
use native.Mathlib.Omega.{arith}
use geruest.Prelude.Lists.{Text, text_eq, text_eq_iff}

-- The search of `std::find` in a vector of strings.
unfoldable pub member : Text → List Text → Bool
member lang [] = false
member lang (l ∷ languages) = text_eq l lang || member lang languages

abbrev pub IsUnique : List Text → Type 0
IsUnique [] = Unit
IsUnique (k ∷ order) = (member k order ≡ false) × IsUnique order

pub member-append :
    (k j : Text) (order : List Text) → member k (order ++ j ∷ []) ≡ (member k order || text_eq j k)
unfolding member
member-append k j [] = ground arith
member-append k j (i ∷ order) = ground (arith, member-append k j order)

pub append-IsUnique :
    (j : Text) (order : List Text)
    → IsUnique order
    → member j order ≡ false
    → IsUnique (order ++ j ∷ [])
unfolding member
append-IsUnique j [] u h = (refl, tt)
append-IsUnique j (i ∷ order) (fresh, u) h = (
  ground (arith, member-append i j order, text_eq_iff i j, text_eq_iff j i),
  append-IsUnique j order u (ground arith),
)
