-- ===== src/Routes/Best/Order.antt =====
-- The order in which patterns are preferred.
use geruest.Prelude.{
  ◌<◌, ◌≡◌, refl, ◌⊎◌, inl, inr, true, false, ◌&&◌, ◌||◌, [], ◌∷◌, Text, length, ltb, ◌==◌,
  Bool-cases, arith,
}
use geruest.Routes.Best.{text_lt}

text_lt_trans : (p q r : Text) → text_lt p q ≡ true → text_lt q r ≡ true → text_lt p r ≡ true
unfolding text_lt
text_lt_trans [] [] r h k = cc
text_lt_trans [] (d ∷ q) [] h k = cc
text_lt_trans [] (d ∷ q) (e ∷ r) h k = refl
text_lt_trans (c ∷ p) [] r h k = cc
text_lt_trans (c ∷ p) (d ∷ q) [] h k = cc
text_lt_trans (c ∷ p) (d ∷ q) (e ∷ r) h k = ground (arith, text_lt_trans p q r)

text_lt_irrefl : (p : Text) → text_lt p p ≡ false
unfolding text_lt
text_lt_irrefl [] = refl
text_lt_irrefl (c ∷ p) = ground (arith, text_lt_irrefl p)

text_lt_total : (p q : Text) → text_lt q p ≡ false → (p ≡ q) ⊎ (text_lt p q ≡ true)
unfolding text_lt
text_lt_total [] [] h = inl refl
text_lt_total [] (d ∷ q) h = inr refl
text_lt_total (c ∷ p) [] h = cc
text_lt_total (c ∷ p) (d ∷ q) h = ground (arith, text_lt_total p q)

-- `p` is preferred to `q`: it is longer, or as long and less.
abbrev pub Beats : Text → Text → Type 0
Beats p q = (length q < length p) ⊎ ((length p ≡ length q) × (text_lt p q ≡ true))

pub Beats-trans : (p q r : Text) → Beats p q → Beats q r → Beats p r
Beats-trans p q r h k = ground (arith, text_lt_trans p q r)

pub Beats-asymm : (p q : Text) → Beats p q → Beats q p → ⊥
Beats-asymm p q h k = ground (arith, text_lt_trans p q p, text_lt_irrefl p)

pub Beats-total :
    (p q : Text)
    → (ltb (length p) (length q) || (length q == length p && text_lt q p)) ≡ false
    → (p ≡ q) ⊎ Beats p q
Beats-total p q h = elim (Bool-cases (text_lt q p)) [
  | inl e ↦ inr (inl (ground arith))
  | inr e ↦ elim (text_lt_total p q e) [ inl same ↦ inl same | inr less ↦ inr (ground arith) ]
]
