-- ===== src/Mem/Heap/Run.antt =====
-- kernel/mem/heap.c: what a sequence of calls keeps.
use valecium.Prelude.{
  ℕ, ◌+◌, ◌-◌, ◌^◌, ◌≤◌, ◌<◌, ◌≡◌, ◌≢◌, refl, ap, ◌∙◌, true, arith, inl, inr, List, [], ◌∷◌,
}
use valecium.Mem.Memory.{within}
use valecium.Mem.Heap.{Heap, header_size, kmalloc}
use valecium.Mem.Heap.Blocks.{IsValid, kmalloc_lem}

-- Calls of `kmalloc` one after another.
unfoldable pub kmalloc_all : List ℕ → Heap → Heap
kmalloc_all [] h = h
kmalloc_all (size ∷ sizes) h = kmalloc_all sizes (kmalloc size h).1

-- No size overflows when the header is added.
unfoldable pub AllSmall : List ℕ → Type 0
AllSmall [] = Unit
AllSmall (size ∷ sizes) = (size < 2 ^ 32 - header_size) × AllSmall sizes

-- The second heap is a later state of the first: what was allocated lies still and is untouched.
pub record Later (h h' : Heap) : Type 0 where
  pub valid : IsValid h'
  pub grows : h.ptr ≤ h'.ptr
  pub bounds : (h'.start ≡ h.start) × (h'.end ≡ h.end)
  pub kept : (a : ℕ) → a < h.ptr → h'.memory a ≡ h.memory a

Later-refl : {h : Heap} → IsValid h → Later h h
Later-refl v = record { valid = v; grows = omega arith; bounds = (refl, refl); kept = λ a lt. refl }

Later-trans : {h h' h'' : Heap} → Later h h' → Later h' h'' → Later h h''
Later-trans one two = record {
  valid = two.valid;
  grows = omega (arith, one.grows, two.grows);
  bounds = (two.bounds.0 ∙ one.bounds.0, two.bounds.1 ∙ one.bounds.1);
  kept = λ a lt. two.kept a (omega (arith, one.grows)) ∙ one.kept a lt;
}

kmalloc-Later :
    (size : ℕ) {h : Heap} → IsValid h → size < 2 ^ 32 - header_size → Later h (kmalloc size h).1
kmalloc-Later size {h} v small = elim (kmalloc_lem size v small) [
  | inl null ↦ rw null.1 (Later-refl v)
  | inr (block, valid) ↦ record {
    valid = valid;
    grows = omega (arith, block.ptr, block.place);
    bounds = block.bounds;
    kept = λ a lt. block.kept a (inl lt);
  }
]

kmalloc_all-Later :
    (sizes : List ℕ) {h : Heap} → IsValid h → AllSmall sizes → Later h (kmalloc_all sizes h)
unfolding kmalloc_all AllSmall
kmalloc_all-Later [] v small = Later-refl v
kmalloc_all-Later (size ∷ sizes) v (small, smalls) =
    let one = kmalloc-Later size v small in
    Later-trans one (kmalloc_all-Later sizes one.valid smalls)

-- The blocks of two calls of `kmalloc`, with any calls in between, do not overlap, and all the
-- calls after the first leave its block's bytes as they were. The sizes are such that adding a
-- header does not overflow, and the first and the last call have a result other than null.
pub kmalloc-kmalloc_all :
    (size size' : ℕ) (sizes : List ℕ) {h : Heap}
    → IsValid h
    → size < 2 ^ 32 - header_size
    → AllSmall sizes
    → size' < 2 ^ 32 - header_size
    → (kmalloc size h).0 ≢ 0
    → (kmalloc size' (kmalloc_all sizes (kmalloc size h).1)).0 ≢ 0
    → ((kmalloc size h).0 + size < (kmalloc size' (kmalloc_all sizes (kmalloc size h).1)).0)
      × ((a : ℕ)
          → within (kmalloc size h).0 size a ≡ true
          → (kmalloc size' (kmalloc_all sizes (kmalloc size h).1)).1.memory a
            ≡ (kmalloc size h).1.memory a)
kmalloc-kmalloc_all size size' sizes {h} v small smalls small' one two =
    elim (kmalloc_lem size v small) [
      | inl null ↦ absurd (one (ap (λ r. r.0) null.1))
      | inr (block, valid) ↦
          let later = kmalloc_all-Later sizes valid smalls in
          let last = kmalloc-Later size' later.valid small' in
          elim (kmalloc_lem size' later.valid small') [
            | inl null ↦ absurd (two (ap (λ r. r.0) null.1))
            | inr (block', valid') ↦ (
              omega (arith, block.ptr, block'.place, later.grows),
              λ a inside. (Later-trans later last).kept a (ground (arith, block.ptr)),
            )
          ]
    ]
