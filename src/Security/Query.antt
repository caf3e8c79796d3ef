-- ===== src/Security/Query.antt =====
-- What the query builder puts together.
use geruest.Prelude.{
  ◌≡◌, ◌≢◌, refl, ap, ◌⊎◌, inl, inr, List, [], ◌∷◌, ◌++◌, none, some, Text, length, ◌==◌,
  if◌then◌else◌, Bool-cases, arith,
}
use geruest.Security.{escape_sql, placeholder_count, substitute_params, build_query}

-- The template as the texts before, between and behind its placeholders.
pub record Pieces : Type 0 where
  pub first : Text
  pub others : List Text

pub split_template : Text → Pieces
split_template [] = record { first = []; others = [] }
split_template (c ∷ template) =
    let rest = split_template template in
    if c == b'?'
    then record { first = []; others = rest.first ∷ rest.others }
    else record { first = c ∷ rest.first; others = rest.others }

-- Each value as a literal, and the text behind it.
pub interleave : List Text → List Text → Text
interleave [] others = []
interleave (p ∷ params) [] = []
interleave (p ∷ params) (t ∷ others) =
    b'\'' ∷ (escape_sql p ++ b'\'' ∷ (t ++ interleave params others))

substitute-interleave :
    (template : Text) (params : List Text)
    → placeholder_count template ≡ length params
    → substitute_params template params
      ≡ (split_template template).first ++ interleave params (split_template template).others
unfolding placeholder_count substitute_params split_template interleave
substitute-interleave [] [] h = refl
substitute-interleave [] (p ∷ params) h = absurd (omega arith)
substitute-interleave (c ∷ template) [] h = ground (arith, substitute-interleave template [])
substitute-interleave (c ∷ template) (p ∷ params) h = elim (Bool-cases (c == b'?')) [
  | inl e ↦ ground (arith, substitute-interleave template params)
  | inr e ↦ ground (arith, substitute-interleave template (p ∷ params))
]

-- With as many values as placeholders the query is the template with each placeholder, in order,
-- replaced by its value as a quoted literal; with any other number of values there is no query.
pub build_query_cases :
    (template : Text) (params : List Text)
    → ((placeholder_count template ≡ length params)
        × (build_query template params
            ≡ some (
                (split_template template).first
                ++ interleave params (split_template template).others)))
      ⊎ ((placeholder_count template ≢ length params) × (build_query template params ≡ none))
unfolding build_query
build_query_cases template params =
    elim (Bool-cases (placeholder_count template == length params)) [
      | inl e ↦
          inl (ground arith, rw e (ap some (substitute-interleave template params (ground arith))))
      | inr e ↦ inr (ground arith, rw e)
    ]
