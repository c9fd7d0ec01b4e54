-- ===== src/Mem/Pmm/Bits.antt =====
-- kernel/mem/pmm.c: what setting and clearing one bit does to every bit of the bitmap.
use valecium.Prelude.{
  ℕ, ◌/◌, ◌%◌, ◌<◌, ◌≡◌, refl, Bool, true, false, not, ◌&&◌, ◌||◌, arith, ◌==◌, passes, passes→true,
}
use valecium.Mem.Pmm.{Pmm, byte_set, byte_clear, byte_test, bitmap_set, bitmap_clear, bitmap_is_set}

same : Bool → Bool → Bool
same true b = b
same false b = not b

eq_of_same : (a b : Bool) → same a b ≡ true → a ≡ b
unfolding same
eq_of_same true true h = refl
eq_of_same true false h = cc
eq_of_same false true h = cc
eq_of_same false false h = refl

abbrev set_row : ℕ → ℕ → ℕ → Bool
set_row k j b = same (byte_test (byte_set b k) j) ((k == j) || byte_test b j)

abbrev clear_row : ℕ → ℕ → ℕ → Bool
clear_row k j b = same (byte_test (byte_clear b k) j) (not (k == j) && byte_test b j)

abbrev all_rows : (ℕ → ℕ → ℕ → Bool) → ℕ → ℕ → Bool
all_rows row k j = passes (row k j) 256

abbrev all_tables : (ℕ → ℕ → ℕ → Bool) → ℕ → Bool
all_tables row k = passes (all_rows row k) 8

row_of_tables :
    (row : ℕ → ℕ → ℕ → Bool)
    → passes (all_tables row) 8 ≡ true
    → (b k j : ℕ) → b < 256
    → k < 8
    → j < 8
    → row k j b ≡ true
row_of_tables row all b k j hb hk hj =
    passes→true (row k j) 256
      (passes→true (all_rows row k) 8 (passes→true (all_tables row) 8 all k hk) j hj) b hb

set_table : passes (all_tables set_row) 8 ≡ true
unfolding passes same byte_test byte_set
set_table = refl

clear_table : passes (all_tables clear_row) 8 ≡ true
unfolding passes same byte_test byte_clear
clear_table = refl

test-set :
    (b k j : ℕ) → b < 256 → k < 8 → j < 8 → byte_test (byte_set b k) j ≡ ((k == j) || byte_test b j)
test-set b k j hb hk hj = eq_of_same _ _ (row_of_tables set_row set_table b k j hb hk hj)

test-clear :
    (b k j : ℕ)
    → b < 256
    → k < 8
    → j < 8
    → byte_test (byte_clear b k) j ≡ (not (k == j) && byte_test b j)
test-clear b k j hb hk hj = eq_of_same _ _ (row_of_tables clear_row clear_table b k j hb hk hj)

-- Bytes stay bytes.
abbrev pub AllBytes : Pmm → Type 0
AllBytes s = (i : ℕ) → s.bitmap i < 256

pub set-AllBytes : (s : Pmm) (p : ℕ) → AllBytes s → AllBytes (bitmap_set s p)
unfolding bitmap_set byte_set
set-AllBytes s p h i = ground (arith, h i)

pub clear-AllBytes : (s : Pmm) (p : ℕ) → AllBytes s → AllBytes (bitmap_clear s p)
unfolding bitmap_clear byte_clear
clear-AllBytes s p h i = ground (arith, h i)

-- Setting a page's bit sets that bit and no other.
pub is_set-set :
    (s : Pmm) (p q : ℕ)
    → AllBytes s
    → bitmap_is_set (bitmap_set s p) q ≡ ((p == q) || bitmap_is_set s q)
unfolding bitmap_is_set bitmap_set
is_set-set s p q h =
    ground
      (arith, test-set (s.bitmap (p / 8)) (p % 8) (q % 8) (h (p / 8)) (omega arith) (omega arith))

-- Clearing a page's bit clears that bit and no other.
pub is_set-clear :
    (s : Pmm) (p q : ℕ)
    → AllBytes s
    → bitmap_is_set (bitmap_clear s p) q ≡ (not (p == q) && bitmap_is_set s q)
unfolding bitmap_is_set bitmap_clear
is_set-clear s p q h =
    ground
      (arith, test-clear (s.bitmap (p / 8)) (p % 8) (q % 8) (h (p / 8)) (omega arith) (omega arith))
