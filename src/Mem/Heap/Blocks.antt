-- ===== src/Mem/Heap/Blocks.antt =====
-- kernel/mem/heap.c: where `kmalloc` places its blocks.
use valecium.Prelude.{
  ℕ, ◌+◌, ◌-◌, ◌*◌, ◌/◌, ◌^◌, ◌≤◌, ◌<◌, ◌≡◌, ◌≢◌, refl, true, false, ◌||◌, arith, ◌==◌, inl, inr,
  ◌⊎◌, Bool-cases, ltb, u32,
}
use valecium.Mem.Heap.{Heap, canary, header_size, load32, align_up, write_header, kmalloc}
use valecium.Mem.Heap.Header.{load32-write_header, write_header-outside}

-- The heap lies below the end of the address space, and the bump pointer in it.
pub record IsValid (h : Heap) : Type 0 where
  pub some_start : 0 < h.start
  pub above : h.start ≤ h.ptr
  pub below : h.ptr ≤ h.end + 1
  pub no_wrap : h.end + 8 < 2 ^ 32

-- Where the next header goes.
abbrev pub next_header : Heap → ℕ
next_header h = (h.ptr + 7) / 8 * 8

pub align_up_lem : (v : ℕ) → v + 7 < 2 ^ 32 → align_up v 8 ≡ (v + 7) / 8 * 8
unfolding align_up
align_up_lem v h = omega arith

-- What a successful call gives: a block behind all earlier ones and inside the heap, with its
-- header in front; only the header is written.
pub record Allocated (size : ℕ) (h : Heap) (p : ℕ) (h' : Heap) : Type 0 where
  pub place : p ≡ next_header h + header_size
  pub inside : p + size ≤ h.end + 1
  pub ptr : h'.ptr ≡ p + size
  pub bounds : (h'.start ≡ h.start) × (h'.end ≡ h.end)
  pub stored : load32 (next_header h) h'.memory ≡ size
  pub canaries :
      (load32 (next_header h + 4) h'.memory ≡ canary)
      × (load32 (next_header h + 8) h'.memory ≡ canary)
  pub kept : (a : ℕ) → (a < h.ptr) ⊎ (p ≤ a) → h'.memory a ≡ h.memory a

abbrev pub HasRoom : ℕ → Heap → Type 0
HasRoom size h = next_header h + header_size + size ≤ h.end + 1

pub kmalloc-eq :
    (size : ℕ) (h : Heap)
    → IsValid h
    → size < 2 ^ 32 - header_size
    → size ≢ 0
    → HasRoom size h
    → kmalloc size h ≡ (
      next_header h + header_size,
      record h {
        memory = write_header (next_header h) size h.memory;
        ptr = next_header h + header_size + size;
      },
    )
unfolding kmalloc
kmalloc-eq size h v small ne room =
    let c = next_header h in
    let ptr_small : h.ptr + 7 < 2 ^ 32 = omega (arith, v.below, v.no_wrap) in
    let room' : c + 12 + size ≤ h.end + 1 = room in
    let total : u32 (size + 12) ≡ size + 12 = omega arith in
    let fits : ltb h.end c ≡ false = ground arith in
    let space : ltb (u32 (h.end - c + 1)) (size + 12) ≡ false = ground (arith, v.no_wrap) in
    let zero? : (size == 0) ≡ false = ground arith in
    let at : u32 (c + 12) ≡ c + 12 = omega (arith, v.no_wrap) in
    let end : u32 (c + (size + 12)) ≡ c + 12 + size = omega (arith, v.no_wrap) in
    rw (align_up_lem h.ptr ptr_small, total, zero?, fits, space, at, end)

kmalloc-null :
    (size : ℕ) (h : Heap)
    → IsValid h
    → size < 2 ^ 32 - header_size
    → (size ≡ 0) ⊎ (h.end + 1 < next_header h + header_size + size)
    → kmalloc size h ≡ (0, h)
unfolding kmalloc
kmalloc-null size h v small (inl zero?) = rw zero?
kmalloc-null size h v small (inr full) =
    let c = next_header h in
    let ptr_small : h.ptr + 7 < 2 ^ 32 = omega (arith, v.below, v.no_wrap) in
    let full' : h.end + 1 < c + 12 + size = full in
    let total : u32 (size + 12) ≡ size + 12 = omega arith in
    let space : (ltb h.end c || ltb (u32 (h.end - c + 1)) (size + 12)) ≡ true =
      ground (arith, v.no_wrap) in
    rw (align_up_lem h.ptr ptr_small, total) (ground (arith, space))

pub kmalloc-Allocated :
    (size : ℕ) (h : Heap)
    → IsValid h
    → size < 2 ^ 32 - header_size
    → size ≢ 0
    → HasRoom size h
    → Allocated size h (kmalloc size h).0 (kmalloc size h).1 × IsValid (kmalloc size h).1
kmalloc-Allocated size h v small ne room =
    let c = next_header h in
    let room' : c + 12 + size ≤ h.end + 1 = room in
    let (stored, before, after) = load32-write_header c size h.memory (omega arith) in
    rw (kmalloc-eq size h v small ne room) (
      record {
        place = refl;
        inside = room;
        ptr = refl;
        bounds = (refl, refl);
        stored = stored;
        canaries = (before, after);
        kept = λ a off. write_header-outside c size h.memory a (omega arith);
      },
      record {
        some_start = v.some_start;
        above = omega (arith, v.above);
        below = room;
        no_wrap = v.no_wrap;
      },
    )

-- `kmalloc` of a size that does not overflow: either it is zero or the room does not suffice, and
-- then the result is null and nothing changes; or a block is allocated.
pub kmalloc_lem :
    (size : ℕ) {h : Heap}
    → IsValid h
    → size < 2 ^ 32 - header_size
    → (((size ≡ 0) ⊎ (h.end + 1 < next_header h + header_size + size)) × (kmalloc size h ≡ (0, h)))
      ⊎ (Allocated size h (kmalloc size h).0 (kmalloc size h).1 × IsValid (kmalloc size h).1)
kmalloc_lem size {h} v small =
    elim (Bool-cases (size == 0 || ltb (h.end + 1) (next_header h + header_size + size))) [
      | inl null ↦
          let why : (size ≡ 0) ⊎ (h.end + 1 < next_header h + header_size + size) = ground arith in
          inl (why, kmalloc-null size h v small why)
      | inr block ↦ inr (kmalloc-Allocated size h v small (ground arith) (ground arith))
    ]
