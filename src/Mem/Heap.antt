-- ===== src/Mem/Heap.antt =====
-- kernel/mem/heap.c: the kernel's heap, a bump allocator. The static variables and the memory are
-- the fields of `Heap`; 0 is the null pointer. `free` does nothing.
pub mod Blocks
pub mod Walk
pub mod Run
pub mod Zeroed
pub mod Overflow
pub mod Tests
pub mod Header
use valecium.Prelude.{
  ℕ, zero, suc, ◌+◌, ◌-◌, ◌*◌, ◌/◌, ◌%◌, ◌^◌, ◌≤◌, ◌<◌, ◌≡◌, ◌≢◌, refl, sym, ap, ◌∙◌, Bool, true,
  false, not, ◌&&◌, ◌||◌, arith, ◌==◌, ==_iff, if◌then◌else◌, inl, inr, ◌⊎◌, Bool-cases,
  Option-cases, Option, none, some, ltb, leb, u32, update, List, [], ◌∷◌, ◌++◌, fun_ext, has_bit,
  length, length-append,
}
use valecium.Mem.Memory.{Memory, memset, memcpy}

pub record Heap : Type 0 where
  pub start : ℕ
  pub end : ℕ
  pub ptr : ℕ
  pub memory : Memory

abbrev pub canary : ℕ
canary = 0xdeadbeef

-- `sizeof(HeapBlockHeader)`
abbrev pub header_size : ℕ
header_size = 12

-- A 32-bit word in memory, lowest byte first.
unfoldable pub store32 : ℕ → ℕ → Memory → Memory
store32 p v m =
    update
      (update (update (update m p (v % 256)) (p + 1) (v / 256 % 256)) (p + 2) (v / 2 ^ 16 % 256))
      (p + 3) (v / 2 ^ 24 % 256)

unfoldable pub load32 : ℕ → Memory → ℕ
load32 p m = m p + 256 * m (p + 1) + 2 ^ 16 * m (p + 2) + 2 ^ 24 * m (p + 3)

-- For an alignment that is a power of two `x & ~(align - 1)` is `x - x % align`.
unfoldable pub align_up : ℕ → ℕ → ℕ
align_up v align = let x = u32 (v + (align - 1)) in x - x % align

-- The argument is the address of `__end`.
unfoldable pub initialize : ℕ → Heap → Heap
initialize kernel_end h =
    let start = align_up kernel_end 8 in
    let desired_end = u32 (start + 64 * 1024 * 1024) in
    record h {
      start = start;
      end = if ltb desired_end start || ltb 0xffffffff desired_end then 0xffffffff else desired_end;
      ptr = start;
    }

unfoldable pub write_header : ℕ → ℕ → Memory → Memory
write_header cur size m = store32 (cur + 8) canary (store32 (cur + 4) canary (store32 cur size m))

unfoldable pub kmalloc : ℕ → Heap → ℕ × Heap
kmalloc size h =
    let total = u32 (size + header_size) in
    let cur = align_up h.ptr 8 in
    if size == 0
    then (0, h)
    else if ltb h.end cur
    then (0, h)
    else if ltb (u32 (h.end - cur + 1)) total
    then (0, h)
    else (
      u32 (cur + header_size),
      record h { memory = write_header cur size h.memory; ptr = u32 (cur + total) },
    )

unfoldable pub kzalloc : ℕ → Heap → ℕ × Heap
kzalloc size h =
    let (p, h') = kmalloc size h in
    if p == 0 then (0, h') else (p, record h' { memory = memset p 0 size h'.memory })

unfoldable pub calloc : ℕ → ℕ → Heap → ℕ × Heap
calloc nmemb size h = kzalloc (u32 (nmemb * size)) h

unfoldable pub realloc : ℕ → ℕ → Heap → ℕ × Heap
realloc p size h =
    let (n, h') = kmalloc size h in
    if p == 0
    then (n, h')
    else if size == 0
    then (0, h)
    else if n == 0
    then (0, h')
    else (n, record h' { memory = memcpy n p size h'.memory })

-- `brk`: whether it returns 0.
unfoldable pub brk : ℕ → Heap → Bool × Heap
brk addr h =
    if ltb addr h.start || ltb h.end addr then (false, h) else (true, record h { ptr = addr })

-- `sbrk`. The increment is the bit pattern of an `intptr_t`; `none` is the result -1.
unfoldable pub sbrk : ℕ → Heap → Option ℕ × Heap
sbrk inc h =
    let new_ptr = u32 (h.ptr + inc) in
    if inc == 0
    then (some h.ptr, h)
    else if (ltb inc (2 ^ 31) && ltb new_ptr h.ptr) || ltb h.end new_ptr
    then (none, h)
    else if ltb new_ptr h.start
    then (none, h)
    else (some h.ptr, record h { ptr = new_ptr })

-- What `heap_check_integrity` comes to: blocks counted, or the address of a bad header, at which it
-- hangs. `none`: the fuel ran out.
pub data Report : Type 0 where
  passed : ℕ → Report
  corrupt : ℕ → Report

unfoldable pub check_from : ℕ → ℕ → ℕ → Heap → Option Report
check_from zero cur blocks h = none
check_from (suc fuel) cur blocks h =
    let next = u32 (cur + (header_size + load32 cur h.memory)) in
    let rest = check_from fuel next (u32 (blocks + 1)) h in
    if ltb cur h.ptr
    then (if not (load32 (cur + 4) h.memory == canary) || not (load32 (cur + 8) h.memory == canary)
        then some (corrupt cur)
        else rest)
    else some (passed blocks)

unfoldable pub check_integrity : ℕ → Heap → Option Report
check_integrity fuel h = check_from fuel h.start 0 h
