-- ===== src/Wildcard/Matching.antt =====
-- The matcher decides the meaning of a pattern.
use mathlib.Core.Path.{subst}
use geruest.Prelude.{
  ℕ, ◌≡◌, refl, sym, ap, ◌∙◌, ◌↔◌, inl, inr, Bool, true, false, [], ◌∷◌, ◌++◌, append_assoc,
  append-nil, Text, contains, is_empty_iff, text_eq_iff, ◌==◌, ==_iff, Bool-cases, arith,
}
use geruest.Wildcard.{
  star, c_str, match_byte, scan, match_wildcard, after_stars, matches_wildcard_pattern,
}
use geruest.Wildcard.Meaning.{Matches, NoNul}

-- Some end of the text satisfies `P`.
abbrev Ends : (Text → Type 0) → Text → Type 0
Ends P t = (u : Text) × (v : Text) × (t ≡ u ++ v) × P v

Ends-cons : (P : Text → Type 0) (c : ℕ) (t : Text) → Ends P t → Ends P (c ∷ t)
Ends-cons P c t (u, v, e, h) = (c ∷ u, v, ap (◌∷◌ c) e, h)

Ends-idem : (P : Text → Type 0) (t : Text) → Ends (Ends P) t → Ends P t
Ends-idem P t (u, v, e, (u', v', e', h)) =
    (u ++ u', v', e ∙ ap (◌++◌ u) e' ∙ sym (append_assoc u u' v'), h)

scan_sound : (f : Text → Bool) (t : Text) → scan f t ≡ true → Ends (λ v. f v ≡ true) t
unfolding scan
scan_sound f [] h = ([], [], refl, h)
scan_sound f (d ∷ t) h = elim (Bool-cases (f (d ∷ t))) [
  | inl here ↦ ([], d ∷ t, refl, here)
  | inr not_here ↦ Ends-cons _ d t (scan_sound f t (ground arith))
]

scan_complete : (f : Text → Bool) (u v : Text) → f v ≡ true → scan f (u ++ v) ≡ true
unfolding scan
scan_complete f [] [] h = h
scan_complete f [] (d ∷ v) h = ground arith
scan_complete f (d ∷ u) v h = ground (arith, scan_complete f u v h)

match_byte_sound :
    (c : ℕ) (f : Text → Bool) (t : Text)
    → match_byte c f t ≡ true
    → (v : Text) × (t ≡ c ∷ v) × (f v ≡ true)
unfolding match_byte
match_byte_sound c f [] h = cc
match_byte_sound c f (d ∷ t) h = (t, ground arith, ground arith)

match_byte_complete :
    (c : ℕ) (f : Text → Bool) (v : Text) → f v ≡ true → match_byte c f (c ∷ v) ≡ true
unfolding match_byte
match_byte_complete c f v h = ground arith

mutual
  unfolding match_wildcard after_stars

  match_sound : (p t : Text) → match_wildcard p t ≡ true → Matches p t
  match_sound [] t h = (is_empty_iff t).0 h
  match_sound (c ∷ p) t h = elim (Bool-cases (c == star)) [
    | inl e ↦ inl ((==_iff c star).0 e, after_sound p t (ground arith))
    | inr e ↦
        let (v, e', h') = match_byte_sound c (match_wildcard p) t (ground arith) in
        inr (ground arith, (v, e', match_sound p v h'))
  ]

  after_sound : (p t : Text) → after_stars p t ≡ true → Ends (Matches p) t
  after_sound [] t h = (t, [], sym (append-nil t), refl)
  after_sound (c ∷ p) t h = elim (Bool-cases (c == star)) [
    | inl e ↦ ([], t, refl, inl ((==_iff c star).0 e, after_sound p t (ground arith)))
    | inr e ↦
        let (u, v, e', h') = scan_sound (match_byte c (match_wildcard p)) t (ground arith) in
        let (v', e2, h2) = match_byte_sound c (match_wildcard p) v h' in
        (u, v, e', inr (ground arith, (v', e2, match_sound p v' h2)))
  ]

mutual
  unfolding match_wildcard after_stars

  match_complete : (p t : Text) → Matches p t → match_wildcard p t ≡ true
  match_complete [] t h = (is_empty_iff t).1 h
  match_complete (c ∷ p) t (inl (e, w)) = ground (arith, after_complete p t w)
  match_complete (c ∷ p) t (inr (ne, (v, e, h))) =
      ground (arith, match_byte_complete c (match_wildcard p) v (match_complete p v h))

  after_complete : (p t : Text) → Ends (Matches p) t → after_stars p t ≡ true
  after_complete [] t w = refl
  after_complete (c ∷ p) t (u, v, e, inl (cs, w)) =
      ground (arith, after_complete p t (Ends-idem (Matches p) t (u, v, e, w)))
  after_complete (c ∷ p) t (u, v, e, inr (ne, (v', e', h))) = ground (
    arith,
    scan_complete (match_byte c (match_wildcard p)) u v
        (rw e' (match_byte_complete c (match_wildcard p) v' (match_complete p v' h))),
  )

c_str_of_NoNul : (s : Text) → NoNul s → c_str s ≡ s
unfolding c_str
c_str_of_NoNul [] h = refl
c_str_of_NoNul (c ∷ s) (h, hs) = ground (arith, c_str_of_NoNul s hs)

-- A pattern without a star matches itself only.
literal_sound : (p t : Text) → contains star p ≡ false → Matches p t → p ≡ t
literal_sound [] t h m = sym m
literal_sound (c ∷ p) t h (inl (e, w)) = absurd (ground arith)
literal_sound (c ∷ p) t h (inr (ne, (v, e, w))) =
    ap (◌∷◌ c) (literal_sound p v (ground arith) w) ∙ sym e

literal_complete : (p : Text) → contains star p ≡ false → Matches p p
literal_complete [] h = refl
literal_complete (c ∷ p) h = inr (ground arith, (p, refl, literal_complete p (ground arith)))

-- For a pattern and a path without NUL bytes, the test succeeds exactly when the path is the
-- pattern with each of its stars replaced by some text.
pub matches_wildcard_pattern_iff :
    (pattern path : Text)
    → NoNul pattern
    → NoNul path
    → (matches_wildcard_pattern pattern path ≡ true) ↔ Matches pattern path
unfolding matches_wildcard_pattern
matches_wildcard_pattern_iff pattern path h k = elim (Bool-cases (contains star pattern)) [
  | inl starred ↦
      rw (starred, c_str_of_NoNul pattern h, c_str_of_NoNul path k)
        (match_sound pattern path, match_complete pattern path)
  | inr plain ↦ (
    λ e.
        subst (Matches pattern) ((text_eq_iff pattern path).0 (rw plain at e))
          (literal_complete pattern plain),
    λ m. rw plain ((text_eq_iff pattern path).1 (literal_sound pattern path plain m)),
  )
]
