-- ===== src/Mem/Pmm/Tests.antt =====
-- kernel/mem/pmm.c: runs on concrete states, and the theorems at them.
use valecium.Prelude.{
  ℕ, zero, suc, ◌+◌, ◌*◌, ◌/◌, ◌<◌, ◌≡◌, ◌≢◌, refl, true, arith, ◌==◌, if◌then◌else◌, ◌⊎◌, [], ◌∷◌,
}
use Prim.Native.Nat.{min}
use valecium.Mem.Pmm.{
  Pmm, blank, page_size, reserved_pages, byte_set, byte_test, byte_clear, bitmap_set, bitmap_clear,
  bitmap_is_set, find_free, allocate_page, free_page, is_page_free, reserve, total_of, clamp_total,
  initialize, total_memory, free_pages,
}
use valecium.Mem.Pmm.Count.{IsValid, count_used}
use valecium.Mem.Pmm.Alloc.{IsLowest, IsFull, Takes, allocate_lem}
use valecium.Mem.Pmm.Free.{Releases, free_page-Releases}
use valecium.Mem.Pmm.Init.{UsedBelow, initialize-UsedBelow}
use valecium.Mem.Pmm.Run.{allocate, free, run, run-IsValid, allocate-run_ne}

-- Eight pages, of which 0, 1 and 3 are in use.
abbrev small : Pmm
small = record {
  bitmap = λ i. if i == 0 then 11 else 0;
  mapped = true;
  total = 8;
  allocated = 3;
  initialized = true;
}

abbrev boot : Pmm
unfolding initialize
boot = initialize (4 * 1024 * 1024) blank

-- `PMM_SelfTest`: three pages, the second freed and handed out again.
self_test :
    let (p1, s1) = allocate_page small in
    let (p2, s2) = allocate_page s1 in
    let (p3, s3) = allocate_page s2 in
    let s4 = free_page p2 s3 in
    let (p2_new, s5) = allocate_page s4 in
    (p1 ≡ 2 * page_size)
    × (p2 ≡ 4 * page_size)
    × (p3 ≡ 5 * page_size)
    × (is_page_free s4 p2 ≡ true)
    × (p2_new ≡ p2)
    × (free_pages s5 ≡ 2)
unfolding allocate_page find_free bitmap_is_set bitmap_set byte_test byte_set free_page bitmap_clear
    byte_clear is_page_free free_pages
self_test = (refl, refl, refl, refl, refl, refl)

boot_counts : (boot.total ≡ 1024) × (boot.allocated ≡ 512) × (total_memory boot ≡ 4 * 1024 * 1024)
unfolding initialize total_of clamp_total reserve bitmap_set total_memory
boot_counts = (refl, refl, refl)

small-IsValid : IsValid small
unfolding count_used bitmap_is_set byte_test
small-IsValid = record {
  ready = refl;
  fits = omega arith;
  bytes = λ i. ground arith;
  counted = refl;
}

small-IsLowest : IsLowest small 2
unfolding bitmap_is_set byte_test
small-IsLowest = record { inside = omega arith; free = refl; below = λ q lt. below q lt }
  where
    below : (q : ℕ) → q < 2 → bitmap_is_set small q ≡ true
    below zero lt = refl
    below (suc zero) lt = refl
    below (suc (suc q)) lt = absurd (omega arith)

allocate_lem_example :
    ((p : ℕ) × IsLowest small p
      × ((allocate_page small).0 ≡ p * page_size)
      × Takes small p (allocate_page small).1)
    ⊎ (IsFull small × (allocate_page small ≡ (0, small)))
allocate_lem_example = allocate_lem small-IsValid

run-IsValid_example : IsValid (run (allocate ∷ free 4096 ∷ free 77 ∷ allocate ∷ []) small)
run-IsValid_example = run-IsValid (allocate ∷ free 4096 ∷ free 77 ∷ allocate ∷ []) small-IsValid

allocate-run_ne_example :
    (allocate_page (run (allocate ∷ free 4096 ∷ allocate ∷ []) small)).0 ≢ 3 * page_size
unfolding bitmap_is_set byte_test
allocate-run_ne_example =
    allocate-run_ne 3 (allocate ∷ free 4096 ∷ allocate ∷ []) small-IsValid (omega arith, refl)
      (omega arith) (omega arith, tt)

free_page-Releases_example : Releases small 4096 (free_page 4096 small)
free_page-Releases_example = free_page-Releases 4096 small-IsValid (omega arith)

initialize-UsedBelow_example :
    let t = initialize (64 * 1024 * 1024) blank in
    UsedBelow (min reserved_pages t.total) t × (t.total ≡ (64 * 1024 * 1024 + 4095) / 4096)
initialize-UsedBelow_example =
    initialize-UsedBelow (64 * 1024 * 1024) blank (λ i. omega arith) (omega arith)
