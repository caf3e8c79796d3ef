-- ===== src/WebSocket/Masking.antt =====
-- Masking a payload twice gives the payload.
use Prim.Native.Nat.{bit_xor}
use geruest.Prelude.{
  ℕ, zero, suc, ◌+◌, ◌%◌, ◌<◌, ◌≡◌, refl, ap, true, [], ◌∷◌, Text, All, length, get_or, ◌==◌,
  ==_iff, all_below, all_below_sound, arith,
}
use geruest.WebSocket.{unmask_from}

xor_table : all_below 256 (λ b. all_below 256 (λ k. bit_xor (bit_xor b k) k == b)) ≡ true
unfolding all_below
xor_table = refl

pub bit_xor_twice : (b k : ℕ) → b < 256 → k < 256 → bit_xor (bit_xor b k) k ≡ b
bit_xor_twice b k h h' = (==_iff (bit_xor (bit_xor b k) k) b).0 (
    all_below_sound 256 (λ k. bit_xor (bit_xor b k) k == b) k
      (all_below_sound 256 (λ b. all_below 256 (λ k. bit_xor (bit_xor b k) k == b)) b xor_table h)
      h')

abbrev pub AreBytes : Text → Type 0
AreBytes = All (λ b. b < 256)

get_or-lt : (mask : Text) (i : ℕ) → AreBytes mask → get_or mask i 0 < 256
get_or-lt [] i h = omega arith
get_or-lt (m ∷ mask) zero h = h.0
get_or-lt (m ∷ mask) (suc i) h = get_or-lt mask i h.1

pub unmask_from_twice :
    (i : ℕ) (mask payload : Text)
    → AreBytes mask
    → AreBytes payload
    → unmask_from i mask (unmask_from i mask payload) ≡ payload
unfolding unmask_from
unmask_from_twice i mask [] h k = refl
unmask_from_twice i mask (b ∷ payload) h (k, ks) = cc (
  bit_xor_twice b (get_or mask (i % 4) 0) k (get_or-lt mask (i % 4) h),
  unmask_from_twice (i + 1) mask payload h ks,
)

pub length-unmask_from :
    (i : ℕ) (mask payload : Text) → length (unmask_from i mask payload) ≡ length payload
unfolding unmask_from
length-unmask_from i mask [] = refl
length-unmask_from i mask (b ∷ payload) = ap suc (length-unmask_from (i + 1) mask payload)
