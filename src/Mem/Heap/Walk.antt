-- ===== src/Mem/Heap/Walk.antt =====
-- kernel/mem/heap.c: the walk of `heap_check_integrity` over the blocks.
use valecium.Prelude.{
  ℕ, suc, ◌+◌, ◌%◌, ◌≤◌, ◌<◌, ◌≡◌, ◌≢◌, refl, ap, ◌∙◌, true, false, arith, ◌==◌, some, ltb, u32,
}
use valecium.Mem.Heap.{
  Heap, canary, header_size, load32, write_header, kmalloc, corrupt, check_from, check_integrity,
}
use valecium.Mem.Heap.Header.{load32-write_header, load32-write_header_ne}
use valecium.Mem.Heap.Blocks.{IsValid, next_header, HasRoom, kmalloc-eq}

-- Two blocks, the first at the start of the heap and with a size that is a multiple of 8.
abbrev pub two_blocks : ℕ → ℕ → Heap → Heap
two_blocks a b h = (kmalloc b (kmalloc a h).1).1

two_blocks-eq :
    (a b : ℕ) (h : Heap)
    → IsValid h
    → h.ptr ≡ h.start
    → h.start % 8 ≡ 0
    → 0 < a
    → a % 8 ≡ 0
    → 0 < b
    → h.start + 28 + a + b ≤ h.end + 1
    → two_blocks a b h ≡ record h {
      memory = write_header (h.start + 16 + a) b (write_header h.start a h.memory);
      ptr = h.start + 28 + a + b;
    }
two_blocks-eq a b h v at aligned pos a8 pos' room =
    let here : next_header h ≡ h.start = rw at (omega arith) in
    let fits : HasRoom a h = omega (arith, here) in
    let one = kmalloc-eq a h v (omega (arith, v.no_wrap)) (omega arith) fits in
    let h1 : Heap = record h {
      memory = write_header (next_header h) a h.memory;
      ptr = next_header h + header_size + a;
    } in
    let v1 : IsValid h1 = record {
      some_start = v.some_start;
      above = omega (arith, here);
      below = fits;
      no_wrap = v.no_wrap;
    } in
    let there : next_header h1 ≡ h.start + 16 + a = omega (arith, here) in
    let ptr : h.start + 16 + a + 12 + b ≡ h.start + 28 + a + b = omega arith in
    let two = kmalloc-eq b h1 v1 (omega (arith, v.no_wrap)) (omega arith) (omega (arith, there)) in
    ap (λ r. r.1) (ap (λ r. kmalloc b r.1) one ∙ two) ∙ rw (there, here, ptr) refl

-- `kmalloc` aligns each header to 8 bytes, but the walk of `heap_check_integrity` does not: of two
-- sound blocks, the first with a size that is a positive multiple of 8 and the second with a
-- positive size other than the canary, it reports the second as corrupt, at an address where no
-- header is.
pub check_integrity-two_blocks :
    (a b fuel : ℕ) (h : Heap)
    → IsValid h
    → h.ptr ≡ h.start
    → h.start % 8 ≡ 0
    → 0 < a
    → a % 8 ≡ 0
    → 0 < b
    → b ≢ canary
    → h.start + 28 + a + b ≤ h.end + 1
    → check_integrity (suc (suc fuel)) (two_blocks a b h) ≡ some (corrupt (h.start + 12 + a))
unfolding check_integrity check_from
check_integrity-two_blocks a b fuel h v at aligned pos a8 pos' other room =
    rw (two_blocks-eq a b h v at aligned pos a8 pos' room) (
      let m1 = write_header h.start a h.memory in
      let m2 = write_header (h.start + 16 + a) b m1 in
      let (size1, before1, after1) =
        load32-write_header h.start a h.memory (omega (arith, v.no_wrap)) in
      let (size2, before2, after2) =
        load32-write_header (h.start + 16 + a) b m1 (omega (arith, v.no_wrap)) in
      let size : load32 h.start m2 ≡ a =
        load32-write_header_ne (h.start + 16 + a) h.start b m1 (omega arith) ∙ size1 in
      let before : load32 (h.start + 4) m2 ≡ canary =
        load32-write_header_ne (h.start + 16 + a) (h.start + 4) b m1 (omega arith) ∙ before1 in
      let after : load32 (h.start + 8) m2 ≡ canary =
        load32-write_header_ne (h.start + 16 + a) (h.start + 8) b m1 (omega arith) ∙ after1 in
      let next : u32 (h.start + (12 + a)) ≡ h.start + 12 + a = omega (arith, v.no_wrap) in
      let place : h.start + 12 + a + 4 ≡ h.start + 16 + a = omega arith in
      let misread : load32 (h.start + 12 + a + 4) m2 ≡ b = ap (λ p. load32 p m2) place ∙ size2 in
      let bad : (b == canary) ≡ false = ground arith in
      let more1 : ltb h.start (h.start + 28 + a + b) ≡ true = ground arith in
      let more2 : ltb (h.start + 12 + a) (h.start + 28 + a + b) ≡ true = ground arith in
      rw (size, before, after, next, misread, bad, more1, more2) refl)
