-- ===== src/Paths/Canonical.antt =====
-- Which spellings of a path are looked up alike.
use mathlib.Core.Path.{subst}
use mathlib.Core.List.{reverse, reverse-append, reverse-reverse}
use geruest.Prelude.{
  ℕ, ◌+◌, ◌-◌, ◌≡◌, ◌≢◌, refl, sym, ap, ◌∙◌, inl, inr, true, false, [], ◌∷◌, ◌++◌, append_assoc,
  Text, codes, text_eq_iff, text_eq_refl, length, length-append, take, drop, take-append,
  drop-append, take-append-drop, Bool-cases, arith,
}
use geruest.Language.{slash}
use geruest.Paths.{pop_slashes, ends_with, drop_extension, canonical_request_path}

snoc≢nil : (r : Text) (c : ℕ) → r ++ c ∷ [] ≢ []
snoc≢nil [] c = cc
snoc≢nil (d ∷ r) c = cc

pop_slashes-slash : (r : Text) → r ≢ [] → pop_slashes (slash ∷ r) ≡ pop_slashes r
unfolding pop_slashes
pop_slashes-slash [] h = absurd (h refl)
pop_slashes-slash (d ∷ r) h = refl

-- A slash at the end of a path that is not empty makes no difference.
canonical-append_slash :
    (path : Text)
    → path ≢ []
    → canonical_request_path (path ++ slash ∷ []) ≡ canonical_request_path path
unfolding canonical_request_path
canonical-append_slash [] h = absurd (h refl)
canonical-append_slash (c ∷ path) h =
    let full : reverse (c ∷ path) ≢ [] =
      subst (λ r. r ≢ []) (sym (reverse-append (c ∷ []) path)) (snoc≢nil (reverse path) c) in
    ap (λ r. drop_extension (reverse (pop_slashes r))) (reverse-append (c ∷ path) (slash ∷ []))
    ∙ ap (λ r. drop_extension (reverse r)) (pop_slashes-slash (reverse (c ∷ path)) full)

-- A path that does not end in a slash keeps its end.
pop_slashes-keep : (c d : ℕ) (r : Text) → c ≢ slash → pop_slashes (c ∷ d ∷ r) ≡ c ∷ d ∷ r
unfolding pop_slashes
pop_slashes-keep c d r h = ground arith

ends_with_append :
    (p e : Text)
    → p ≢ []
    → (ends_with e (p ++ e) ≡ true) × (take (length (p ++ e) - length e) (p ++ e) ≡ p)
unfolding ends_with
ends_with_append [] e h = absurd (h refl)
ends_with_append (c ∷ p) e h =
    let size : length ((c ∷ p) ++ e) ≡ length (c ∷ p) + length e = length-append (c ∷ p) e in
    let n : length ((c ∷ p) ++ e) - length e ≡ length (c ∷ p) = omega (arith, size) in
    (ground (arith, size, drop-append (c ∷ p) e _ n, text_eq_refl e), take-append (c ∷ p) e _ n)

-- A path with the extension `.html` is looked up as the path without it.
pub canonical-append_html :
    (path : Text) → path ≢ [] → canonical_request_path (path ++ codes ".html") ≡ path
unfolding canonical_request_path drop_extension
canonical-append_html path h =
    let turned : reverse (path ++ codes ".html") ≡ codes "lmth." ++ reverse path =
      reverse-append path (codes ".html") in
    let kept : pop_slashes (reverse (path ++ codes ".html")) ≡ reverse (path ++ codes ".html") =
      ap pop_slashes turned
      ∙ pop_slashes-keep b'l' b'm' (codes "th." ++ reverse path) (omega arith)
      ∙ sym turned in
    rw (kept, reverse-reverse (path ++ codes ".html"), (ends_with_append path (codes ".html") h).0)
      (ends_with_append path (codes ".html") h).1

-- Two texts with different last bytes differ.
ends_with-last : (p e : Text) (c d : ℕ) → c ≢ d → ends_with (e ++ d ∷ []) (p ++ c ∷ []) ≡ false
unfolding ends_with
ends_with-last p e c d h = elim (Bool-cases (ends_with (e ++ d ∷ []) (p ++ c ∷ []))) [
  | inr out ↦ out
  | inl hit ↦ absurd (
      h (
        last_eq (
          ground (
            arith,
            text_eq_iff (drop (length (p ++ c ∷ []) - length (e ++ d ∷ [])) (p ++ c ∷ []))
                (e ++ d ∷ []),
          ))))
]
  where
    last_eq : drop (length (p ++ c ∷ []) - length (e ++ d ∷ [])) (p ++ c ∷ []) ≡ e ++ d ∷ [] → c ≡ d
    last_eq e' =
        let k = length (p ++ c ∷ []) - length (e ++ d ∷ []) in
        let whole : p ++ c ∷ [] ≡ (take k (p ++ c ∷ []) ++ e) ++ d ∷ [] =
          sym (take-append-drop k (p ++ c ∷ []))
          ∙ ap (λ t. take k (p ++ c ∷ []) ++ t) e'
          ∙ sym (append_assoc (take k (p ++ c ∷ [])) e (d ∷ [])) in
        let turned : c ∷ reverse p ≡ d ∷ reverse (take k (p ++ c ∷ []) ++ e) =
          sym (reverse-append p (c ∷ []))
          ∙ ap reverse whole
          ∙ reverse-append (take k (p ++ c ∷ []) ++ e) (d ∷ []) in
        cc turned

-- A path with the extension `.htm` is looked up as the path without it.
canonical-append_htm :
    (path : Text) → path ≢ [] → canonical_request_path (path ++ codes ".htm") ≡ path
unfolding canonical_request_path drop_extension
canonical-append_htm path h =
    let turned : reverse (path ++ codes ".htm") ≡ codes "mth." ++ reverse path =
      reverse-append path (codes ".htm") in
    let kept : pop_slashes (reverse (path ++ codes ".htm")) ≡ reverse (path ++ codes ".htm") =
      ap pop_slashes turned
      ∙ pop_slashes-keep b'm' b't' (codes "h." ++ reverse path) (omega arith)
      ∙ sym turned in
    let other : ends_with (codes ".html") (path ++ codes ".htm") ≡ false =
      ap (ends_with (codes ".html")) (sym (append_assoc path (codes ".ht") (codes "m")))
      ∙ ends_with-last (path ++ codes ".ht") (codes ".htm") b'm' b'l' (omega arith) in
    rw
      (
        kept,
        reverse-reverse (path ++ codes ".htm"),
        other,
        (ends_with_append path (codes ".htm") h).0,
      )
      (ends_with_append path (codes ".htm") h).1
