-- ===== src/Mem/Heap/Tests.antt =====
-- kernel/mem/heap.c: runs on a small heap, and the theorems at it.
use valecium.Prelude.{ℕ, ◌+◌, ◌-◌, ◌^◌, ◌<◌, ◌≡◌, ◌≢◌, refl, true, arith, ◌⊎◌, none, some, [], ◌∷◌}
use valecium.Mem.Memory.{memcpy, copy_up, copy_forwards, dwords_up, move_dword, within}
use valecium.Mem.Memory.Tests.{numbered}
use valecium.Mem.Heap.{
  Heap, header_size, load32, store32, align_up, write_header, initialize, kmalloc, realloc, brk,
  sbrk, passed, check_from, check_integrity,
}
use valecium.Mem.Heap.Blocks.{IsValid, next_header, Allocated, kmalloc_lem}
use valecium.Mem.Heap.Run.{kmalloc_all, AllSmall, kmalloc-kmalloc_all}

abbrev empty : Heap
empty = record { start = 0x100000; end = 0x20ffff; ptr = 0x100000; memory = numbered }

empty-IsValid : IsValid empty
empty-IsValid = record {
  some_start = omega arith;
  above = omega arith;
  below = omega arith;
  no_wrap = omega arith;
}

placed : ((kmalloc 5 empty).0 ≡ 0x10000c) × ((kmalloc 5 (kmalloc 5 empty).1).0 ≡ 0x100024)
unfolding kmalloc align_up
placed = (refl, refl)

-- Sizes that are 4 more than a multiple of 8 leave no gaps, and the walk finds each header.
walked : check_integrity 5 (kmalloc 12 (kmalloc 4 empty).1).1 ≡ some (passed 2)
unfolding check_integrity check_from kmalloc align_up write_header store32 load32
walked = refl

started :
    ((initialize 0x234567 empty).start ≡ 0x234568) × ((initialize 0x234567 empty).end ≡ 0x4234568)
unfolding initialize align_up
started = (refl, refl)

-- The new block of 8 bytes takes its last 4 bytes from behind the old block, where its own header
-- holds the size.
grown : (realloc 0x10000c 8 (kmalloc 4 empty).1).1.memory 0x100020 ≡ 8
unfolding realloc kmalloc align_up write_header store32 load32 memcpy copy_up copy_forwards
    dwords_up move_dword
grown = refl

moved :
    (sbrk 0x1000 empty).0 ≡ some 0x100000
    × ((sbrk (2 ^ 32 - 1) empty).0 ≡ none)
    × ((brk 0x100010 empty).1.ptr ≡ 0x100010)
unfolding sbrk brk
moved = (refl, refl, refl)

kmalloc_lem_example :
    (((◌≡◌ {A = ℕ} 24 0) ⊎ (empty.end + 1 < next_header empty + header_size + 24))
      × (kmalloc 24 empty ≡ (0, empty)))
    ⊎ (Allocated 24 empty (kmalloc 24 empty).0 (kmalloc 24 empty).1 × IsValid (kmalloc 24 empty).1)
kmalloc_lem_example = kmalloc_lem 24 empty-IsValid (omega arith)

first-not_null : (kmalloc 24 empty).0 ≢ 0
unfolding kmalloc align_up
first-not_null = omega arith

last-not_null : (kmalloc 8 (kmalloc_all (5 ∷ 0 ∷ []) (kmalloc 24 empty).1)).0 ≢ 0
unfolding kmalloc align_up kmalloc_all
last-not_null = omega arith

all_small : AllSmall (5 ∷ 0 ∷ [])
unfolding AllSmall
all_small = (omega arith, (omega arith, tt))

kmalloc-kmalloc_all_example :
    ((kmalloc 24 empty).0 + 24 < (kmalloc 8 (kmalloc_all (5 ∷ 0 ∷ []) (kmalloc 24 empty).1)).0)
    × ((a : ℕ)
        → within (kmalloc 24 empty).0 24 a ≡ true
        → (kmalloc 8 (kmalloc_all (5 ∷ 0 ∷ []) (kmalloc 24 empty).1)).1.memory a
          ≡ (kmalloc 24 empty).1.memory a)
kmalloc-kmalloc_all_example =
    kmalloc-kmalloc_all 24 8 (5 ∷ 0 ∷ []) empty-IsValid (omega arith) all_small (omega arith)
      first-not_null last-not_null
