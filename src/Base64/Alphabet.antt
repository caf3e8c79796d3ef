-- ===== src/Base64/Alphabet.antt =====
-- The alphabet is one letter for each number below 64, and the pad is none of them.
use geruest.Prelude.{
  ℕ, ◌<◌, ◌≡◌, refl, Bool, true, false, ◌&&◌, not, Option, none, some, ◌==◌, all_below,
  all_below_sound, arith,
}
use geruest.Base64.{pad, letter, position}

abbrev is_at : Option ℕ → ℕ → Bool
is_at none n = false
is_at (some p) n = p == n

is_at_sound : (o : Option ℕ) (n : ℕ) → is_at o n ≡ true → o ≡ some n
is_at_sound none n h = cc
is_at_sound (some p) n h = ground arith

table : all_below 64 (λ n. is_at (position (letter n)) n && not (letter n == pad)) ≡ true
unfolding all_below position letter
table = refl

pub position-letter :
    (n : ℕ) → n < 64 → (position (letter n) ≡ some n) × ((letter n == pad) ≡ false)
position-letter n h =
    let row =
      all_below_sound 64 (λ n. is_at (position (letter n)) n && not (letter n == pad)) n table h in
    (is_at_sound (position (letter n)) n (ground arith), ground arith)
