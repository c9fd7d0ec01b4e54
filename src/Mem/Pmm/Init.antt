-- ===== src/Mem/Pmm/Init.antt =====
-- kernel/mem/pmm.c: `PMM_Initialize`.
use valecium.Prelude.{
  ℕ, zero, suc, ◌+◌, ◌-◌, ◌*◌, ◌/◌, ◌^◌, ◌≤◌, ◌<◌, ◌≡◌, refl, sym, ◌∙◌, true, false, arith,
  if◌then◌else◌, inl, inr, Bool-cases, ltb,
}
use Prim.Native.Nat.{min, bit_and, bit_and-bitwise}
use mathlib.Core.Path.{subst}
use valecium.Mem.Pmm.{
  Pmm, storage_bytes, reserved_pages, bitmap_set, bitmap_is_set, byte_test, reserve, total_of,
  clamp_total, initialize,
}
use valecium.Mem.Pmm.Bits.{AllBytes, is_set-set}
use valecium.Mem.Pmm.Count.{IsValid, set-IsValid, count_used-none}

-- The first `i` pages are in use and no others.
pub record UsedBelow (i : ℕ) (s : Pmm) : Type 0 where
  pub valid : IsValid s
  pub used : (q : ℕ) → q < s.total → bitmap_is_set s q ≡ ltb q i
  pub allocated : s.allocated ≡ i

set-UsedBelow : {s : Pmm} (i : ℕ) → i < s.total → UsedBelow i s → UsedBelow (i + 1) (bitmap_set s i)
unfolding bitmap_set
set-UsedBelow {s} i lt below =
    let takes = λ (q : ℕ). is_set-set s i q below.valid.bytes in
    record {
      valid = set-IsValid i below.valid lt (ground (arith, below.used i));
      used = λ q less. ground (arith, takes q, below.used q);
      allocated = omega (arith, below.allocated, below.valid.fits);
    }

reserve-UsedBelow :
    (n i : ℕ) (s : Pmm)
    → i ≤ s.total
    → UsedBelow i s
    → UsedBelow (min (i + n) s.total) (reserve n i s) × ((reserve n i s).total ≡ s.total)
unfolding reserve bitmap_set
reserve-UsedBelow zero i s fits below =
    let stay : min (i + zero) s.total ≡ i = omega arith in rw stay (below, refl)
reserve-UsedBelow (suc n) i s fits below = elim (Bool-cases (ltb i s.total)) [
  | inl more ↦
      let next : min (i + suc n) s.total ≡ min (i + 1 + n) s.total = omega arith in
      let lt : i < s.total = ground arith in
      rw (more, next)
        (reserve-UsedBelow n (i + 1) (bitmap_set s i) (omega arith) (set-UsedBelow i lt below))
  | inr done ↦
      let stay : min (i + suc n) s.total ≡ i = ground arith in rw (done, stay) (below, refl)
]

total-reserve : (n i : ℕ) (s : Pmm) → (reserve n i s).total ≡ s.total
unfolding reserve bitmap_set
total-reserve zero i s = refl
total-reserve (suc n) i s = ground (arith, total-reserve n (i + 1) (bitmap_set s i))

abbrev cleared : ℕ → ℕ → Pmm → Pmm
cleared pages bytes s = record {
  bitmap = λ i. if ltb i bytes then 0 else s.bitmap i;
  mapped = true;
  total = pages;
  allocated = 0;
  initialized = true;
}

zero-bit_and : (b : ℕ) → bit_and 0 b ≡ 0
zero-bit_and b = bit_and-bitwise 0 b

unused_of_cleared :
    (pages bytes : ℕ) (s : Pmm) (q : ℕ)
    → pages ≤ bytes * 8
    → q < pages
    → bitmap_is_set (cleared pages bytes s) q ≡ false
unfolding bitmap_is_set byte_test
unused_of_cleared pages bytes s q enough lt =
    let inside : ltb (q / 8) bytes ≡ true = ground arith in rw (inside, zero-bit_and)

-- After `memset` no page is in use, if the cleared bytes hold all pages.
cleared-UsedBelow :
    (pages bytes : ℕ) (s : Pmm)
    → AllBytes s
    → pages ≤ bytes * 8
    → pages ≤ storage_bytes * 8
    → UsedBelow 0 (cleared pages bytes s)
cleared-UsedBelow pages bytes s h enough fits =
    let unused : (q : ℕ) → q < pages → bitmap_is_set (cleared pages bytes s) q ≡ false =
      λ q lt. unused_of_cleared pages bytes s q enough lt in
    record {
      valid = record {
        ready = refl;
        fits = fits;
        bytes = λ i. ground (arith, h i);
        counted = sym (count_used-none _ pages unused);
      };
      used = λ q lt. unused q lt ∙ ground arith;
      allocated = refl;
    }

clamp_total_lem : (pages : ℕ) → pages ≤ 2 ^ 20 → clamp_total pages ≡ (pages, (pages + 7) / 8)
unfolding clamp_total
clamp_total_lem pages h = ground arith

total_of-lt : (mem : ℕ) → total_of mem < 2 ^ 20
unfolding total_of
total_of-lt mem = omega arith

-- After `PMM_Initialize` the invariant holds, the pages below 2 MiB (or all, if there are fewer)
-- are in use and no others, and the pages make up the memory, rounded up, if its size is at most
-- 2 ^ 32 - 4096.
pub initialize-UsedBelow :
    (mem : ℕ) (s : Pmm)
    → AllBytes s
    → mem ≤ 2 ^ 32 - 4096
    → let t = initialize mem s in
      UsedBelow (min reserved_pages t.total) t × (t.total ≡ (mem + 4095) / 4096)
unfolding initialize total_of
initialize-UsedBelow mem s h le =
    let pages = total_of mem in
    let some_pages = total_of-lt mem in
    let start = cleared pages ((pages + 7) / 8) s in
    rw (clamp_total_lem pages (omega arith)) (
      let (below, total) =
        reserve-UsedBelow reserved_pages 0 start (omega arith)
          (cleared-UsedBelow pages ((pages + 7) / 8) s h (omega arith) (omega arith)) in
      (
        subst (λ k. UsedBelow (min reserved_pages k) (reserve reserved_pages 0 start)) (sym total)
            below,
        total ∙ whole,
      ))
  where
    whole : total_of mem ≡ (mem + 4095) / 4096
    whole = omega arith

-- For a memory of more than 2 ^ 32 - 4096 bytes the rounding wraps around, and the allocator is
-- left with no page at all.
pub initialize_wraps :
    (mem : ℕ) (s : Pmm) → 2 ^ 32 - 4096 < mem → mem < 2 ^ 32 → (initialize mem s).total ≡ 0
unfolding initialize total_of clamp_total
initialize_wraps mem s lo hi =
    let none_left : total_of mem ≡ 0 = omega arith in
    total-reserve reserved_pages 0
      (cleared (clamp_total (total_of mem)).0 (clamp_total (total_of mem)).1 s)
    ∙ rw none_left
