-- ===== src/Mem/Heap/Overflow.antt =====
-- kernel/mem/heap.c: sizes that overflow in `kmalloc` and `calloc`.
use valecium.Prelude.{ℕ, ◌+◌, ◌-◌, ◌*◌, ◌^◌, ◌≤◌, ◌<◌, ◌≡◌, ◌≢◌, refl, false, arith, ◌==◌, ltb, u32}
use valecium.Mem.Heap.{Heap, header_size, kmalloc, calloc}
use valecium.Mem.Heap.Blocks.{IsValid, next_header, HasRoom, align_up_lem, kmalloc-Allocated}
use valecium.Mem.Heap.Zeroed.{kzalloc-Zeroed}

-- For a size of at least 2^32 - 12 the sum with the header wraps around: where a header fits,
-- `kmalloc` returns a block, but the heap's pointer stays below that block's first byte, so that the
-- next block's header lies before it ends.
pub kmalloc_wraps :
    (size : ℕ) (h : Heap)
    → IsValid h
    → 2 ^ 32 - header_size ≤ size
    → size < 2 ^ 32
    → next_header h + header_size ≤ h.end + 1
    → ((kmalloc size h).0 ≡ next_header h + header_size)
      × ((kmalloc size h).1.ptr < next_header h + header_size)
unfolding kmalloc
kmalloc_wraps size h v big small room =
    let c = next_header h in
    let ptr_small : h.ptr + 7 < 2 ^ 32 = omega (arith, v.below, v.no_wrap) in
    let room' : c + 12 ≤ h.end + 1 = room in
    let fits : ltb h.end c ≡ false = ground arith in
    let total : u32 (size + 12) ≡ size + 12 - 2 ^ 32 = omega arith in
    let space : ltb (u32 (h.end - c + 1)) (size + 12 - 2 ^ 32) ≡ false =
      ground (arith, v.no_wrap) in
    let zero? : (size == 0) ≡ false = ground arith in
    let at : u32 (c + 12) ≡ c + 12 = omega (arith, v.no_wrap) in
    let end : u32 (c + (size + 12 - 2 ^ 32)) ≡ c + (size + 12 - 2 ^ 32) =
      omega (arith, v.no_wrap) in
    rw (align_up_lem h.ptr ptr_small, total, zero?, fits, space, at, end) (refl, omega arith)

-- `calloc` does not look for an overflow of its product: for a product of at least 2^32 that is, in
-- 32 bits, positive and small enough for the room there is, it returns a block, whose end is before
-- the last of the bytes that the caller asked for.
pub calloc_wraps :
    (nmemb size : ℕ) (h : Heap)
    → IsValid h
    → 2 ^ 32 ≤ nmemb * size
    → u32 (nmemb * size) ≢ 0
    → u32 (nmemb * size) < 2 ^ 32 - header_size
    → HasRoom (u32 (nmemb * size)) h
    → ((calloc nmemb size h).0 ≡ next_header h + header_size)
      × ((calloc nmemb size h).1.ptr < (calloc nmemb size h).0 + nmemb * size)
unfolding calloc
calloc_wraps nmemb size h v big ne small room =
    let (block, valid) = kmalloc-Allocated (u32 (nmemb * size)) h v small ne room in
    let zeroed = kzalloc-Zeroed (u32 (nmemb * size)) h v block in
    (zeroed.place, rw zeroed.ptr (omega arith))
