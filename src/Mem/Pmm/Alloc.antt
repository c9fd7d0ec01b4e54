-- ===== src/Mem/Pmm/Alloc.antt =====
-- kernel/mem/pmm.c: `PMM_AllocatePhysicalPage`.
use valecium.Prelude.{
  ℕ, zero, suc, ◌+◌, ◌*◌, ◌≤◌, ◌<◌, ◌≡◌, refl, true, false, ◌||◌, arith, ◌==◌, ==_iff, inl, inr,
  ◌⊎◌, Bool-cases, none, some, u32,
}
use valecium.Mem.Pmm.{Pmm, page_size, bitmap_set, bitmap_is_set, find_free, allocate_page}
use valecium.Mem.Pmm.Bits.{is_set-set}
use valecium.Mem.Pmm.Count.{IsValid, set-IsValid, allocated-le}

-- Every managed page is in use.
abbrev pub IsFull : Pmm → Type 0
IsFull s = (q : ℕ) → q < s.total → bitmap_is_set s q ≡ true

-- Page `p` is the lowest free one.
pub record IsLowest (s : Pmm) (p : ℕ) : Type 0 where
  pub inside : p < s.total
  pub free : bitmap_is_set s p ≡ false
  pub below : (q : ℕ) → q < p → bitmap_is_set s q ≡ true

-- From `s` to `t` page `p` becomes used, and nothing else changes.
pub record Takes (s : Pmm) (p : ℕ) (t : Pmm) : Type 0 where
  pub used : (q : ℕ) → bitmap_is_set t q ≡ ((p == q) || bitmap_is_set s q)
  pub total : t.total ≡ s.total
  pub allocated : t.allocated ≡ s.allocated + 1

module _ (s : Pmm) where
  find_free-lowest :
      (n i p : ℕ)
      → i ≤ p
      → p < i + n
      → bitmap_is_set s p ≡ false
      → ((q : ℕ) → q < p → bitmap_is_set s q ≡ true)
      → find_free s n i ≡ some p
  unfolding find_free
  find_free-lowest zero i p lo hi e below = absurd (omega arith)
  find_free-lowest (suc n) i p lo hi e below = elim (Bool-cases (i == p)) [
    | inl at ↦ let here : i ≡ p = (==_iff i p).0 at in rw (here, e)
    | inr off ↦
        rw (below i (ground arith))
          (find_free-lowest n (i + 1) p (ground arith) (omega arith) e below)
  ]

  find_free-cases :
      (n i : ℕ)
      → ((q : ℕ) → q < i → bitmap_is_set s q ≡ true)
      → ((p : ℕ) × (p < i + n)
          × (bitmap_is_set s p ≡ false)
          × ((q : ℕ) → q < p → bitmap_is_set s q ≡ true))
        ⊎ ((q : ℕ) → q < i + n → bitmap_is_set s q ≡ true)
  find_free-cases zero i below = inr (λ q lt. below q (omega arith))
  find_free-cases (suc n) i below = elim (Bool-cases (bitmap_is_set s i)) [
    | inr free ↦ inl (i, omega arith, free, below)
    | inl used ↦ elim (find_free-cases n (i + 1) (next used)) [
      | inl (p, lt, free, low) ↦ inl (p, omega arith, free, low)
      | inr all ↦ inr (λ q lt. all q (omega arith))
    ]
  ]
    where
      next : bitmap_is_set s i ≡ true → (q : ℕ) → q < i + 1 → bitmap_is_set s q ≡ true
      next used q lt = elim (Bool-cases (q == i)) [
        | inl at ↦ let here : q ≡ i = (==_iff q i).0 at in rw here used
        | inr off ↦ below q (ground arith)
      ]

  find_free-none :
      (n i : ℕ) → ((q : ℕ) → q < i + n → bitmap_is_set s q ≡ true) → find_free s n i ≡ none
  unfolding find_free
  find_free-none zero i all = refl
  find_free-none (suc n) i all =
      rw (all i (omega arith)) (find_free-none n (i + 1) (λ q lt. all q (omega arith)))

-- Either some page is the lowest free one, or all are in use.
pub IsLowest-cases : (s : Pmm) → ((p : ℕ) × IsLowest s p) ⊎ IsFull s
IsLowest-cases s = elim (find_free-cases s s.total 0 (λ q lt. absurd (omega arith))) [
  | inl (p, lt, free, low) ↦ inl (p, record { inside = omega arith; free = free; below = low })
  | inr all ↦ inr (λ q lt. all q (omega arith))
]

pub allocate-set :
    {s : Pmm} (p : ℕ) → IsValid s → IsLowest s p → allocate_page s ≡ (p * page_size, bitmap_set s p)
unfolding allocate_page
allocate-set {s} p v low =
    let found =
      find_free-lowest s s.total 0 p (omega arith) (omega (arith, low.inside)) low.free low.below in
    let whole : u32 (p * page_size) ≡ p * page_size = omega (arith, low.inside, v.fits) in
    simp (v.ready, found, whole)

pub Takes-set : {s : Pmm} (p : ℕ) → IsValid s → IsLowest s p → Takes s p (bitmap_set s p)
unfolding bitmap_set
Takes-set {s} p v low = record {
  used = λ q. is_set-set s p q v.bytes;
  total = refl;
  allocated = omega (arith, allocated-le v, v.fits);
}

pub allocate-Takes :
    {s : Pmm} (p : ℕ)
    → IsValid s
    → IsLowest s p
    → ((allocate_page s).0 ≡ p * page_size) × Takes s p (allocate_page s).1
allocate-Takes p v low = rw (allocate-set p v low) (refl, Takes-set p v low)

pub allocate-full : {s : Pmm} → IsFull s → allocate_page s ≡ (0, s)
unfolding allocate_page
allocate-full {s} full =
    let miss = find_free-none s s.total 0 (λ q lt. full q (omega arith)) in rw miss (ground arith)

-- From a valid state, either some page is free: then the allocator takes the lowest free page and
-- no other, counts it, and returns its number times 4096, with no wrap-around. Or every page is in
-- use: then it returns 0 and changes nothing.
pub allocate_lem :
    {s : Pmm}
    → IsValid s
    → ((p : ℕ) × IsLowest s p
        × ((allocate_page s).0 ≡ p * page_size)
        × Takes s p (allocate_page s).1)
      ⊎ (IsFull s × (allocate_page s ≡ (0, s)))
allocate_lem {s} v = elim (IsLowest-cases s) [
  | inl (p, low) ↦ let (addr, takes) = allocate-Takes p v low in inl (p, low, addr, takes)
  | inr full ↦ inr (full, allocate-full full)
]

-- An allocation keeps the invariant, whether it succeeds or not.
pub allocate-IsValid : {s : Pmm} → IsValid s → IsValid (allocate_page s).1
allocate-IsValid {s} v = elim (IsLowest-cases s) [
  | inl (p, low) ↦ rw (allocate-set p v low) (set-IsValid p v low.inside low.free)
  | inr full ↦ rw (allocate-full full) v
]
