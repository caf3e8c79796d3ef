-- ===== src/Prelude/Int.antt =====
-- The signed numbers of the program. `negsuc n` is -(n + 1).
use geruest.Prelude.Tests.{ltb, ◌==◌, if◌then◌else◌}
use Prim.Native.Nat.{ℕ, ◌-◌, ◌%◌, ◌^◌, ◌<◌}

pub data ℤ : Type 0 where
  pos : ℕ → ℤ
  negsuc : ℕ → ℤ

-- -n
abbrev pub neg : ℕ → ℤ
neg n = if n == 0 then pos 0 else negsuc (n - 1)

-- `static_cast<short>`: the low sixteen bits as a signed number.
abbrev pub signed16 : ℕ → ℤ
signed16 w = if ltb w (2 ^ 15) then pos w else negsuc (2 ^ 16 - w - 1)

abbrev pub to_short : ℤ → ℤ
to_short (pos n) = signed16 (n % 2 ^ 16)
to_short (negsuc n) = signed16 (2 ^ 16 - 1 - n % 2 ^ 16)

-- The range of a signed type whose least value is -bound.
abbrev pub IsInRange : ℕ → ℤ → Type 0
IsInRange bound (pos n) = n < bound
IsInRange bound (negsuc n) = n < bound
