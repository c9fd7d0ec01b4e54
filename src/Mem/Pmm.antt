-- ===== src/Mem/Pmm.antt =====
-- kernel/mem/pmm.c: the physical page allocator. The file's static variables are the fields of
-- `Pmm`; a function that changes them returns the new state. The array `bitmap_storage` is a
-- function of the byte's index.
pub mod Bits
pub mod Count
pub mod Alloc
pub mod Free
pub mod Init
pub mod Run
mod Tests
use valecium.Prelude.{
  ℕ, zero, suc, ◌+◌, ◌-◌, ◌*◌, ◌/◌, ◌%◌, ◌^◌, Bool, true, false, not, ◌||◌, Option, none, some, ltb,
  leb, ◌==◌, if◌then◌else◌, bit_and, bit_or, u8, u32, sub32, update, has_bit,
}

pub record Pmm : Type 0 where
  pub bitmap : ℕ → ℕ
  -- whether `s_PageBitmap` points at the storage
  pub mapped : Bool
  pub total : ℕ
  pub allocated : ℕ
  pub initialized : Bool

-- `PAGE_SIZE`, `sizeof(bitmap_storage)`, and the pages of the first 2 MiB.
abbrev pub page_size : ℕ
page_size = 4096

abbrev pub storage_bytes : ℕ
storage_bytes = 131072

abbrev pub reserved_pages : ℕ
reserved_pages = 512

-- The state before `PMM_Initialize`: static storage is zero.
abbrev pub blank : Pmm
blank = record { bitmap = λ i. 0; mapped = false; total = 0; allocated = 0; initialized = false }

-- `1u << k`
abbrev pub bit : ℕ → ℕ
bit k = 2 ^ k

unfoldable pub byte_set : ℕ → ℕ → ℕ
byte_set b k = u8 (bit_or b (bit k))

unfoldable pub byte_clear : ℕ → ℕ → ℕ
byte_clear b k = u8 (bit_and b (2 ^ 32 - 1 - bit k))

unfoldable pub byte_test : ℕ → ℕ → Bool
byte_test b k = has_bit b (bit k)

pub bitmap_set : Pmm → ℕ → Pmm
bitmap_set s page = record s {
  bitmap = update s.bitmap (page / 8) (byte_set (s.bitmap (page / 8)) (page % 8));
  allocated = u32 (s.allocated + 1);
}

pub bitmap_clear : Pmm → ℕ → Pmm
bitmap_clear s page = record s {
  bitmap = update s.bitmap (page / 8) (byte_clear (s.bitmap (page / 8)) (page % 8));
  allocated = if ltb 0 s.allocated then s.allocated - 1 else s.allocated;
}

pub bitmap_is_set : Pmm → ℕ → Bool
bitmap_is_set s page = byte_test (s.bitmap (page / 8)) (page % 8)

-- `for (i = 0; i < reserved_pages && i < s_TotalPages; ++i)`, with the rounds that are left.
pub reserve : ℕ → ℕ → Pmm → Pmm
reserve zero i s = s
reserve (suc n) i s =
    let rest = reserve n (i + 1) (bitmap_set s i) in if ltb i s.total then rest else s

pub total_of : ℕ → ℕ
total_of total_mem_bytes = u32 (total_mem_bytes + page_size - 1) / page_size

-- The storage after the check of its size: pages, and bytes that `memset` clears.
pub clamp_total : ℕ → ℕ × ℕ
clamp_total pages =
    let bytes = u32 (pages + 8 - 1) / 8 in
    if ltb storage_bytes bytes then (storage_bytes * 8, storage_bytes) else (pages, bytes)

pub initialize : ℕ → Pmm → Pmm
initialize total_mem_bytes s =
    let (pages, bytes) = clamp_total (total_of total_mem_bytes) in
    reserve reserved_pages 0 (record {
      bitmap = λ i. if ltb i bytes then 0 else s.bitmap i;
      mapped = true;
      total = pages;
      allocated = 0;
      initialized = true;
    })

-- The loop of `PMM_AllocatePhysicalPage`, with the rounds that are left.
pub find_free : Pmm → ℕ → ℕ → Option ℕ
find_free s zero i = none
find_free s (suc n) i =
    let rest = find_free s n (i + 1) in if bitmap_is_set s i then rest else some i

pub allocate_page : Pmm → ℕ × Pmm
allocate_page s = if not s.mapped then (0, s) else elim (find_free s s.total 0) [
  | none ↦ (0, s)
  | some i ↦ (u32 (i * page_size), bitmap_set s i)
]

pub free_page : ℕ → Pmm → Pmm
free_page addr s =
    if not s.mapped || not (addr % page_size == 0)
    then s
    else if leb s.total (addr / page_size)
    then s
    else if bitmap_is_set s (addr / page_size)
    then bitmap_clear s (addr / page_size)
    else s

pub is_page_free : Pmm → ℕ → Bool
is_page_free s addr =
    if not s.mapped || not (addr % page_size == 0)
    then false
    else if leb s.total (addr / page_size)
    then false
    else not (bitmap_is_set s (addr / page_size))

pub total_memory : Pmm → ℕ
total_memory s = u32 (s.total * page_size)

pub free_pages : Pmm → ℕ
free_pages s = sub32 s.total s.allocated
