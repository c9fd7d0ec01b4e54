-- ===== src/Fs/Fd/Slots.antt =====
-- kernel/fs/fd/fd.c: the search for a free descriptor.
use valecium.Prelude.{
  ℕ, zero, suc, ◌+◌, ◌≤◌, ◌<◌, ◌≡◌, ◌≢◌, refl, arith, ◌==◌, ==_iff, inl, inr, Bool-cases, Option,
  none, some,
}
use valecium.Fs.Fd.{World, table_size, find_free_from, find_free}

-- The lowest descriptor from 3 on that is free, or none if all are in use.
pub data Search (table : ℕ → ℕ) (lo hi : ℕ) : Option ℕ → Type 0 where
  full : ((j : ℕ) → lo ≤ j → j < hi → table j ≢ 0) → Search table lo hi none
  free :
      {i : ℕ}
      → lo ≤ i
      → i < hi
      → table i ≡ 0
      → ((j : ℕ) → lo ≤ j → j < i → table j ≢ 0)
      → Search table lo hi (some i)

find_free_from-Search :
    (table : ℕ → ℕ) (n i lo hi : ℕ)
    → lo ≤ i
    → i + n ≡ hi
    → ((j : ℕ) → lo ≤ j → j < i → table j ≢ 0)
    → Search table lo hi (find_free_from table n i)
unfolding find_free_from
find_free_from-Search table zero i lo hi le end used = full (λ j from to. used j from (omega arith))
find_free_from-Search table (suc n) i lo hi le end used = elim (Bool-cases (table i == 0)) [
  | inl here ↦ rw here (free le (omega arith) ((==_iff (table i) 0).0 here) used)
  | inr taken ↦
      let used' : (j : ℕ) → lo ≤ j → j < i + 1 → table j ≢ 0 = λ j from to.
        elim (Bool-cases (j == i)) [
          | inl e ↦ rw ((==_iff j i).0 e) (ground arith)
          | inr before ↦ used j from (ground arith)
        ] in
      rw taken (find_free_from-Search table n (i + 1) lo hi (omega arith) (omega arith) used')
]

pub find_free-Search : {S : Type 0} (w : World S) → Search w.fd_table 3 table_size (find_free w)
unfolding find_free
find_free-Search w =
    find_free_from-Search w.fd_table 13 3 3 table_size (omega arith) refl
      (λ j from to. absurd (omega arith))
