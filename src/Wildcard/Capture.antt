-- ===== src/Wildcard/Capture.antt =====
-- Capturing and substituting are inverse to each other for patterns with one star.
use mathlib.Core.Path.{◌≡⟨◌⟩◌, ◌∎}
use geruest.Prelude.{
  ℕ, ◌+◌, ◌-◌, ◌≤◌, ◌≡◌, refl, sym, ap, ◌∙◌, inl, inr, true, false, ◌&&◌, ◌||◌, not, [], ◌∷◌, ◌++◌,
  append_assoc, none, some, Text, contains, find_byte, is_empty, text_eq, text_eq_iff, text_eq_refl,
  length, length-append, take, drop, take-append, drop-append, take-append-drop, drop-drop,
  drop-length, ◌==◌, if◌then◌else◌, Bool-cases, Option-cases, arith,
}
use geruest.Wildcard.{
  star, capture_between, capture_from, extract_wildcard_capture, substitute, apply_wildcard_capture,
}

-- Where the first star stands.
find_byte-split :
    (p : Text) (i : ℕ)
    → find_byte star p ≡ some i
    → (u : Text) × (v : Text) × (p ≡ u ++ star ∷ v) × (i ≡ length u) × (contains star u ≡ false)
find_byte-split [] i h = cc
find_byte-split (c ∷ p) i h = elim (Bool-cases (c == star)) [
  | inl e ↦ ([], p, ground arith, ground arith, refl)
  | inr e ↦ elim (Option-cases (find_byte star p)) [
    | inl e' ↦ ground arith
    | inr (j, e') ↦
        let (u, v, split, at, plain) = find_byte-split p j e' in
        (c ∷ u, v, ap (◌∷◌ c) split, ground arith, ground arith)
  ]
]

find_byte-none : (p : Text) → find_byte star p ≡ none → contains star p ≡ false
find_byte-none [] h = refl
find_byte-none (c ∷ p) h = ground (arith, find_byte-none p)

find_byte-some :
    (p q : Text) → contains star p ≡ false → find_byte star (p ++ star ∷ q) ≡ some (length p)
find_byte-some [] q h = refl
find_byte-some (c ∷ p) q h = ground (arith, find_byte-some p q)

contains-append : (p q : Text) → contains star (p ++ q) ≡ (contains star p || contains star q)
contains-append [] q = refl
contains-append (c ∷ p) q = ground (arith, contains-append p q)

substitute-append :
    (p q capture : Text)
    → substitute (p ++ q) capture ≡ substitute p capture ++ substitute q capture
unfolding substitute
substitute-append [] q capture = refl
substitute-append (c ∷ p) q capture = rw (substitute-append p q capture) (
    sym (
      append_assoc (if c == star then capture else c ∷ []) (substitute p capture)
        (substitute q capture)))

substitute_plain : (p capture : Text) → contains star p ≡ false → substitute p capture ≡ p
unfolding substitute
substitute_plain [] capture h = refl
substitute_plain (c ∷ p) capture h = ground (arith, substitute_plain p capture)

-- What a pattern of one star becomes when a text is put in.
apply_one_star :
    (prefix suffix capture : Text)
    → contains star prefix ≡ false
    → contains star suffix ≡ false
    → apply_wildcard_capture (prefix ++ star ∷ suffix) capture ≡ prefix ++ capture ++ suffix
unfolding apply_wildcard_capture substitute
apply_one_star prefix suffix capture h k =
    rw (contains-append prefix (star ∷ suffix), h)
      (rw
        (
          substitute-append prefix (star ∷ suffix) capture,
          substitute_plain prefix capture h,
          substitute_plain suffix capture k,
        )
        (sym (append_assoc prefix capture suffix)))

capture_parts :
    (prefix suffix path : Text)
    → length prefix + length suffix ≤ length path
    → take (length prefix) path ≡ prefix
    → drop (length path - length suffix) path ≡ suffix
    → path
      ≡ prefix
        ++ take (length path - length prefix - length suffix) (drop (length prefix) path)
        ++ suffix
capture_parts prefix suffix path h e k =
    let m = length path - length prefix - length suffix in
    let rest = drop (length prefix) path in
    let at : length prefix + m ≡ length path - length suffix = omega arith in
    let last : drop m rest ≡ suffix =
      drop-drop m (length prefix) path ∙ ap (λ n. drop n path) at ∙ k in
    path
    ≡⟨ sym (take-append-drop (length prefix) path) ⟩ take (length prefix) path ++ rest
    ≡⟨ ap (λ t. t ++ rest) e ⟩ prefix ++ rest
    ≡⟨ ap (λ t. prefix ++ t) (sym (take-append-drop m rest)) ⟩
      prefix ++ (take m rest ++ drop m rest)
    ≡⟨ ap (λ t. prefix ++ (take m rest ++ t)) last ⟩ prefix ++ (take m rest ++ suffix)
    ≡⟨ sym (append_assoc prefix (take m rest) suffix) ⟩ prefix ++ take m rest ++ suffix ∎

-- The test on the suffix is left out where the suffix is empty; there it holds anyway.
suffix_test :
    (suffix path : Text)
    → (not (is_empty suffix) && not (text_eq (drop (length path - length suffix) path) suffix))
      ≡ false
    → drop (length path - length suffix) path ≡ suffix
suffix_test [] path h =
    let e : length path - 0 ≡ length path = omega arith in rw e (drop-length path)
suffix_test (c ∷ s) path h =
    (text_eq_iff (drop (length path - length (c ∷ s)) path) (c ∷ s)).0 (ground arith)

capture_between_sound :
    (prefix suffix path capture : Text)
    → capture_between prefix suffix path ≡ some capture
    → path ≡ prefix ++ capture ++ suffix
unfolding capture_between
capture_between_sound prefix suffix path capture h = ground (
  arith,
  text_eq_iff (take (length prefix) path) prefix,
  suffix_test suffix path,
  capture_parts prefix suffix path,
)

capture_between_complete :
    (prefix suffix capture : Text)
    → capture_between prefix suffix (prefix ++ capture ++ suffix) ≡ some capture
unfolding capture_between
capture_between_complete prefix suffix capture =
    let path = prefix ++ capture ++ suffix in
    let assoc : path ≡ prefix ++ (capture ++ suffix) = append_assoc prefix capture suffix in
    let size : length path ≡ length prefix + length capture + length suffix =
      omega (arith, length-append (prefix ++ capture) suffix, length-append prefix capture) in
    let first : take (length prefix) path ≡ prefix =
      ap (take (length prefix)) assoc ∙ take-append prefix (capture ++ suffix) _ refl in
    let behind : drop (length prefix) path ≡ capture ++ suffix =
      ap (drop (length prefix)) assoc ∙ drop-append prefix (capture ++ suffix) _ refl in
    let last : drop (length path - length suffix) path ≡ suffix =
      drop-append (prefix ++ capture) suffix _
        (omega (arith, size, length-append prefix capture)) in
    let middle : take (length path - length prefix - length suffix) (drop (length prefix) path)
        ≡ capture =
      ap (take (length path - length prefix - length suffix)) behind
      ∙ take-append capture suffix _ (omega (arith, size)) in
    ground (arith, text_eq_refl prefix, text_eq_refl suffix, size, first, last, middle)

-- A capture that is found, put back into the pattern, gives the path.
pub apply-extract :
    (pattern path capture : Text)
    → contains star pattern ≡ true
    → extract_wildcard_capture pattern path ≡ some capture
    → apply_wildcard_capture pattern capture ≡ path
unfolding extract_wildcard_capture capture_from
apply-extract pattern path capture starred h = elim (Option-cases (find_byte star pattern)) [
  | inl e ↦ absurd (ground (arith, find_byte-none pattern e))
  | inr (i, e) ↦
      let (u, v, split, at, plain) = find_byte-split pattern i e in
      let before : take i pattern ≡ u = ap (take i) split ∙ take-append u (star ∷ v) i at in
      let after : drop (i + 1) pattern ≡ v =
        ap (drop (i + 1)) (split ∙ sym (append_assoc u (star ∷ []) v))
        ∙ drop-append (u ++ star ∷ []) v (i + 1) (omega (arith, length-append u (star ∷ []))) in
      let h' : (if contains star v then none else capture_between u v path) ≡ some capture =
        rw (e, before, after) at h in
      let single : contains star v ≡ false = ground arith in
      let sound : path ≡ u ++ capture ++ v =
        capture_between_sound u v path capture (rw single at h') in
      rw split (apply_one_star u v capture plain single ∙ sym sound)
]

-- Any text put in for the single star of a pattern is found again by the capture.
extract-apply :
    (prefix suffix capture : Text)
    → contains star prefix ≡ false
    → contains star suffix ≡ false
    → extract_wildcard_capture
        (prefix ++ star ∷ suffix)
        (apply_wildcard_capture (prefix ++ star ∷ suffix) capture)
      ≡ some capture
unfolding extract_wildcard_capture capture_from
extract-apply prefix suffix capture h k =
    let pattern = prefix ++ star ∷ suffix in
    let before : take (length prefix) pattern ≡ prefix =
      take-append prefix (star ∷ suffix) _ refl in
    let after : drop (length prefix + 1) pattern ≡ suffix =
      ap (drop (length prefix + 1)) (sym (append_assoc prefix (star ∷ []) suffix))
      ∙ drop-append (prefix ++ star ∷ []) suffix (length prefix + 1)
          (omega (arith, length-append prefix (star ∷ []))) in
    rw (apply_one_star prefix suffix capture h k, find_byte-some prefix suffix h, before, after, k)
      (capture_between_complete prefix suffix capture)
