-- ===== src/Cors/Headers.antt =====
-- The request headers that a preflight answer allows.
use mathlib.Core.List.{reverse, reverse-append}
use geruest.Prelude.{
  ℕ, ◌≡◌, ◌≢◌, refl, sym, ap, ◌∙◌, ◌⊎◌, inl, inr, true, false, List, [], ◌∷◌, ◌++◌, Text, codes,
  text_eq, text_eq_iff, text_eq_refl, append_assoc, append-nil, contains, is_empty, is_empty_iff,
  ◌==◌, All, Bool-cases, if_elim, arith,
}
use geruest.Prelude.Unique.{member}
use geruest.Cors.{
  default_allow_headers, header_to_lower, trim_header_token, normalize_allow_header_list,
  split_commas, matched_headers, joined, filter_requested_headers,
}

-- Texts with a separator between each two.
abbrev pub separated : Text → List Text → Text
separated separator [] = []
separated separator (t ∷ []) = t
separated separator (t ∷ u ∷ ts) = t ++ separator ++ separated separator (u ∷ ts)

abbrev pub HasNoComma : Text → Type 0
HasNoComma piece = contains b',' piece ≡ false

-- Less the space around it the piece is not empty, and its lower-case name is allowed.
abbrev pub IsAllowed : List Text → Text → Type 0
IsAllowed allowed piece =
    (trim_header_token piece ≢ [])
    × (member (header_to_lower (trim_header_token piece)) allowed ≡ true)

-- The tokens are the allowed pieces, all of them, in order and less the space around them.
pub data Selects (allowed : List Text) : List Text → List Text → Type 0 where
  ends : Selects allowed [] []
  keeps :
      {piece : Text} {pieces tokens : List Text}
      → IsAllowed allowed piece
      → Selects allowed pieces tokens
      → Selects allowed (piece ∷ pieces) (trim_header_token piece ∷ tokens)
  drops :
      {piece : Text} {pieces tokens : List Text}
      → ¬ IsAllowed allowed piece
      → Selects allowed pieces tokens
      → Selects allowed (piece ∷ pieces) tokens

matched_headers-Selects :
    (allowed pieces : List Text) → Selects allowed pieces (matched_headers allowed pieces)
unfolding matched_headers
matched_headers-Selects allowed [] = ends
matched_headers-Selects allowed (piece ∷ pieces) =
    let rest = matched_headers-Selects allowed pieces in
    if_elim (Selects allowed (piece ∷ pieces)) (is_empty (trim_header_token piece)) _ _
      (λ h. drops (λ (filled, _). filled ((is_empty_iff (trim_header_token piece)).0 h)) rest)
      λ h.
        if_elim (Selects allowed (piece ∷ pieces))
          (member (header_to_lower (trim_header_token piece)) allowed) _ _
          (λ k. keeps ((λ e. cc (rw e at h)), k) rest) (λ k. drops (λ (_, l). cc) rest)

reverse_onto : (c : ℕ) (cut t : Text) → reverse (c ∷ cut) ++ t ≡ reverse cut ++ c ∷ t
reverse_onto c cut t =
    ap (λ r. r ++ t) (reverse-append (c ∷ []) cut) ∙ append_assoc (reverse cut) (c ∷ []) t

split_commas_last :
    (cut piece : Text) → HasNoComma piece → split_commas cut piece ≡ (reverse cut ++ piece) ∷ []
unfolding split_commas
split_commas_last cut [] h = ap (λ t. t ∷ []) (sym (append-nil (reverse cut)))
split_commas_last cut (c ∷ piece) h = elim (Bool-cases (c == b',')) [
  | inl hit ↦ ground arith
  | inr miss ↦
      rw (miss, split_commas)
        (split_commas_last (c ∷ cut) piece (ground arith)
          ∙ ap (λ t. t ∷ []) (reverse_onto c cut piece))
]

split_commas_next :
    (cut piece requested : Text)
    → HasNoComma piece
    → split_commas cut (piece ++ b',' ∷ requested)
      ≡ (reverse cut ++ piece) ∷ split_commas [] requested
unfolding split_commas
split_commas_next cut [] requested h =
    ap (λ t. t ∷ split_commas [] requested) (sym (append-nil (reverse cut)))
split_commas_next cut (c ∷ piece) requested h = elim (Bool-cases (c == b',')) [
  | inl hit ↦ ground arith
  | inr miss ↦
      rw (miss, split_commas)
        (split_commas_next (c ∷ cut) piece requested (ground arith)
          ∙ ap (λ t. t ∷ split_commas [] requested) (reverse_onto c cut piece))
]

split_commas-separated :
    (piece : Text) (pieces : List Text)
    → All HasNoComma (piece ∷ pieces)
    → split_commas [] (separated (codes ",") (piece ∷ pieces)) ≡ piece ∷ pieces
split_commas-separated piece [] (h, hs) = split_commas_last [] piece h
split_commas-separated piece (other ∷ pieces) (h, hs) =
    ap (split_commas []) (append_assoc piece (codes ",") (separated (codes ",") (other ∷ pieces)))
    ∙ split_commas_next [] piece (separated (codes ",") (other ∷ pieces)) h
    ∙ ap (◌∷◌ piece) (split_commas-separated other pieces hs)

joined-separated : (tokens : List Text) → joined tokens ≡ separated (codes ", ") tokens
unfolding joined
joined-separated [] = refl
joined-separated (token ∷ []) = refl
joined-separated (token ∷ other ∷ tokens) =
    ap (λ t. token ++ codes ", " ++ t) (joined-separated (other ∷ tokens))

-- A preflight answer to a list of names with commas between them lists those that are allowed in
-- lower case, all of them and in order, less the space around them; where none is allowed, it is
-- the built-in default, whatever is configured.
pub filter_requested_headers-Selects :
    (allowed : List Text) (piece : Text) (pieces : List Text)
    → All HasNoComma (piece ∷ pieces)
    → (tokens : List Text) × Selects allowed (piece ∷ pieces) tokens
      × (((tokens ≡ [])
            × (filter_requested_headers (separated (codes ",") (piece ∷ pieces)) allowed
                ≡ default_allow_headers))
          ⊎ ((tokens ≢ [])
              × (filter_requested_headers (separated (codes ",") (piece ∷ pieces)) allowed
                  ≡ separated (codes ", ") tokens)))
unfolding filter_requested_headers
filter_requested_headers-Selects allowed piece pieces hs =
    let tokens = matched_headers allowed (piece ∷ pieces) in
    rw (split_commas-separated piece pieces hs) (
      tokens,
      matched_headers-Selects allowed (piece ∷ pieces),
      elim (Bool-cases (is_empty tokens)) [
        | inl none_left ↦ inl ((is_empty_iff tokens).0 none_left, rw none_left refl)
        | inr some_left ↦
            inr ((λ e. cc (rw e at some_left)), rw some_left (joined-separated tokens))
      ],
    )

lower-is_empty : (t : Text) → is_empty (header_to_lower t) ≡ is_empty t
unfolding header_to_lower
lower-is_empty [] = refl
lower-is_empty (c ∷ t) = refl

normalize-member :
    (headers : List Text) (h : Text)
    → member h headers ≡ true
    → is_empty (trim_header_token h) ≡ false
    → member (header_to_lower (trim_header_token h)) (normalize_allow_header_list headers) ≡ true
unfolding member normalize_allow_header_list
normalize-member [] h m e = cc
normalize-member (x ∷ headers) h m e = elim (Bool-cases (text_eq x h)) [
  | inl hit ↦
      let same : x ≡ h = (text_eq_iff x h).0 hit in
      rw (same, e) (ground (arith, text_eq_refl (header_to_lower (trim_header_token h))))
  | inr miss ↦ ground (arith, normalize-member headers h)
]

-- A header of the options is allowed to a request that asks for it, in whatever case and with
-- whatever space around it either of them is written.
matched_headers-normalize :
    (headers pieces : List Text) (h piece : Text)
    → member h headers ≡ true
    → member piece pieces ≡ true
    → header_to_lower (trim_header_token piece) ≡ header_to_lower (trim_header_token h)
    → is_empty (trim_header_token piece) ≡ false
    → member
        (trim_header_token piece)
        (matched_headers (normalize_allow_header_list headers) pieces)
      ≡ true
unfolding member matched_headers
matched_headers-normalize headers [] h piece m l same e = cc
matched_headers-normalize headers (p ∷ pieces) h piece m l same e =
    let filled : is_empty (trim_header_token h) ≡ false =
      sym (lower-is_empty (trim_header_token h))
      ∙ ap is_empty (sym same)
      ∙ lower-is_empty (trim_header_token piece)
      ∙ e in
    let listed = normalize-member headers h m filled in
    elim (Bool-cases (text_eq p piece)) [
      | inl hit ↦
          let there : p ≡ piece = (text_eq_iff p piece).0 hit in
          rw (there, e, same, listed) (ground (arith, text_eq_refl (trim_header_token piece)))
      | inr miss ↦
          let rest = matched_headers-normalize headers pieces h piece m (ground arith) same e in
          ground (arith, rest)
    ]
