-- ===== src/Mem/Heap/Zeroed.antt =====
-- kernel/mem/heap.c: `kzalloc` and `calloc`.
use valecium.Prelude.{
  ℕ, ◌+◌, ◌-◌, ◌*◌, ◌^◌, ◌≤◌, ◌<◌, ◌≡◌, ◌≢◌, refl, ◌∙◌, true, false, arith, ◌==◌, inl, inr, ◌⊎◌,
  u32,
}
use valecium.Mem.Memory.{within}
use valecium.Mem.Memory.Move.{memset_lem}
use valecium.Mem.Heap.{Heap, header_size, kmalloc, kzalloc, calloc}
use valecium.Mem.Heap.Blocks.{IsValid, next_header, Allocated, kmalloc_lem}

-- A block of zeros behind everything that was allocated before, which is left as it was.
pub record Zeroed (size : ℕ) (h : Heap) (p : ℕ) (h' : Heap) : Type 0 where
  pub place : p ≡ next_header h + header_size
  pub inside : p + size ≤ h.end + 1
  pub ptr : h'.ptr ≡ p + size
  pub zeros : (a : ℕ) → within p size a ≡ true → h'.memory a ≡ 0
  pub kept : (a : ℕ) → a < h.ptr → h'.memory a ≡ h.memory a

kzalloc-null : (size : ℕ) (h : Heap) → kmalloc size h ≡ (0, h) → kzalloc size h ≡ (0, h)
unfolding kzalloc
kzalloc-null size h e = rw e refl

pub kzalloc-Zeroed :
    (size : ℕ) (h : Heap)
    → IsValid h
    → Allocated size h (kmalloc size h).0 (kmalloc size h).1
    → Zeroed size h (kzalloc size h).0 (kzalloc size h).1
unfolding kzalloc
kzalloc-Zeroed size h v block =
    let real : (kmalloc size h).0 ≢ 0 = omega (arith, block.place) in
    let fits : (kmalloc size h).0 + size < 2 ^ 32 = omega (arith, block.inside, v.no_wrap) in
    let p = (kmalloc size h).0 in
    let found : (p == 0) ≡ false = ground (arith, block.place) in
    rw found (record {
      place = block.place;
      inside = block.inside;
      ptr = block.ptr;
      zeros = λ a i. memset_lem p 0 size (kmalloc size h).1.memory a real fits ∙ rw i refl;
      kept = λ a lt.
          let off : within p size a ≡ false = ground (arith, block.place) in
          memset_lem p 0 size (kmalloc size h).1.memory a real fits
          ∙ rw off (block.kept a (inl lt));
    })

-- `calloc` of `nmemb` objects of `size` bytes, where the product and a header fit in 32 bits:
-- null with nothing changed, because no bytes are wanted or there is no room for them, or a block
-- of that many zeros inside the heap, with everything allocated before it untouched.
pub calloc_lem :
    (nmemb size : ℕ) {h : Heap}
    → IsValid h
    → nmemb * size < 2 ^ 32 - header_size
    → (((nmemb * size ≡ 0) ⊎ (h.end + 1 < next_header h + header_size + nmemb * size))
        × (calloc nmemb size h ≡ (0, h)))
      ⊎ Zeroed (nmemb * size) h (calloc nmemb size h).0 (calloc nmemb size h).1
unfolding calloc
calloc_lem nmemb size {h} v small =
    let total : u32 (nmemb * size) ≡ nmemb * size = omega arith in
    rw total (elim (kmalloc_lem (nmemb * size) v small) [
      | inl (why, null) ↦ inl (why, kzalloc-null (nmemb * size) h null)
      | inr (block, valid) ↦ inr (kzalloc-Zeroed (nmemb * size) h v block)
    ])
