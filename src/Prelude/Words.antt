-- ===== src/Prelude/Words.antt =====
-- Unsigned machine words as native numbers, C's memory as a function of the address.
use Prim.Native.Nat.{ℕ, ◌+◌, ◌-◌, ◌%◌, ◌^◌, bit_and}
use mathlib.Core.Bool.{Bool, not}
use valecium.Prelude.Tests.{◌==◌, if◌then◌else◌}

-- Conversion to `uint8_t` and to `uint32_t`.
abbrev pub u8 : ℕ → ℕ
u8 x = x % 2 ^ 8

abbrev pub u32 : ℕ → ℕ
u32 x = x % 2 ^ 32

-- `a - b` on `uint32_t`.
abbrev pub sub32 : ℕ → ℕ → ℕ
sub32 a b = (a + 2 ^ 32 - b) % 2 ^ 32

-- A write to one address.
abbrev pub update {ℓ} : {A : Type ℓ} → (ℕ → A) → ℕ → A → ℕ → A
update f i v j = if i == j then v else f j

-- `flags & mask` as a test.
abbrev pub has_bit : ℕ → ℕ → Bool
has_bit flags mask = not (bit_and flags mask == 0)
