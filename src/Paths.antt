-- ===== src/Paths.antt =====
-- src/data/ServerTypes.hpp: normal forms of a request path.
pub mod Canonical
mod Tests
use mathlib.Core.List.{reverse}
use geruest.Prelude.{
  ℕ, ◌-◌, Bool, true, false, ◌&&◌, [], ◌∷◌, Text, codes, text_eq, length, take, drop, get_or, ltb,
  leb, ◌==◌, if◌then◌else◌,
}
use geruest.Language.{slash, is_alpha}

-- `back()` and `pop_back()` at the head of the reversed path.
unfoldable pub pop_slashes : Text → Text
pop_slashes [] = []
pop_slashes (c ∷ []) = c ∷ []
pop_slashes (c ∷ d ∷ r) =
    let popped = pop_slashes (d ∷ r) in if c == slash then popped else c ∷ d ∷ r

-- `size() > n && compare(size() - n, n, extension) == 0`
ends_with : Text → Text → Bool
ends_with extension path =
    ltb (length extension) (length path)
    && text_eq (drop (length path - length extension) path) extension

unfoldable pub drop_extension : Text → Text
unfolding ends_with
drop_extension path =
    if ends_with (codes ".html") path
    then take (length path - 5) path
    else if ends_with (codes ".htm") path
    then take (length path - 4) path
    else path

unfoldable pub canonical_request_path : Text → Text
canonical_request_path path = drop_extension (reverse (pop_slashes (reverse path)))

unfoldable pub default_page_gate_redirect : Text → Text
default_page_gate_redirect path =
    if leb 4 (length path)
      && get_or path 0 0 == slash
      && is_alpha (get_or path 1 0)
      && is_alpha (get_or path 2 0)
      && get_or path 3 0 == slash
    then take 4 path
    else slash ∷ []
