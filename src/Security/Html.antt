-- ===== src/Security/Html.antt =====
-- Escaped text as the content of an HTML element or of a quoted attribute.
use geruest.Prelude.{
  ℕ, ◌≡◌, ◌≢◌, sym, ap, ◌∙◌, true, false, [], ◌∷◌, ◌++◌, append_assoc, append-nil, Option, none,
  some, Text, codes, All, All-append, text_eq, ◌==◌, if◌then◌else◌, arith,
}
use geruest.Security.{escape_html_byte, escape_all, escape_html}

-- A byte that opens or closes a tag or a quoted attribute.
abbrev pub IsInert : ℕ → Type 0
IsInert c = (c ≢ b'<') × (c ≢ b'>') × (c ≢ b'"') × (c ≢ b'\'')

escape_html_byte-IsInert : (c : ℕ) → All IsInert (escape_html_byte c)
unfolding escape_html_byte
escape_html_byte-IsInert c = ground arith

-- The escaped text holds no angle bracket and no quote.
pub escape_html-IsInert : (input : Text) → All IsInert (escape_html input)
unfolding escape_html escape_all
escape_html-IsInert input = all input
  where
    all : (s : Text) → All IsInert (escape_all escape_html_byte s)
    all [] = tt
    all (c ∷ s) =
        All-append IsInert (escape_html_byte c) (escape_all escape_html_byte s)
          (escape_html_byte-IsInert c) (all s)

-- The character that an entity stands for.
entity : Text → Option ℕ
entity name =
    if text_eq name (codes "amp")
    then some b'&'
    else if text_eq name (codes "lt")
    then some b'<'
    else if text_eq name (codes "gt")
    then some b'>'
    else if text_eq name (codes "quot")
    then some b'"'
    else if text_eq name (codes "#x27")
    then some b'\''
    else none

-- What a browser shows for a text, if every entity is one of the five: `none` outside an entity,
-- `some name` behind its ampersand.
show_from : Option Text → Text → Text → Option Text
unfolding entity
show_from none out [] = some out
show_from (some name) out [] = none
show_from none out (c ∷ s) = elim (c == b'&') [
  | true ↦ show_from (some []) out s
  | false ↦ show_from none (out ++ c ∷ []) s
]
show_from (some name) out (c ∷ s) = elim (c == b';') [
  | true ↦ elim (entity name) [ none ↦ none | some d ↦ show_from none (out ++ d ∷ []) s ]
  | false ↦ show_from (some (name ++ c ∷ [])) out s
]

pub show_html : Text → Option Text
unfolding show_from
show_html = show_from none []

show_escape_html_byte :
    (c : ℕ) (out rest : Text)
    → show_from none out (escape_html_byte c ++ rest) ≡ show_from none (out ++ c ∷ []) rest
unfolding show_from escape_html_byte
show_escape_html_byte c out rest = ground arith

show_escape_all :
    (input out : Text)
    → show_from none out (escape_all escape_html_byte input) ≡ some (out ++ input)
unfolding escape_all
show_escape_all [] out = unfold show_from in ap some (sym (append-nil out))
show_escape_all (c ∷ input) out =
    show_escape_html_byte c out (escape_all escape_html_byte input)
    ∙ show_escape_all input (out ++ c ∷ [])
    ∙ ap some (append_assoc out (c ∷ []) input)

-- The escaped text is shown as the input.
pub show-escape_html : (input : Text) → show_html (escape_html input) ≡ some input
unfolding show_html escape_html
show-escape_html input = show_escape_all input []
