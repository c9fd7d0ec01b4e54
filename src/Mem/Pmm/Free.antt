-- ===== src/Mem/Pmm/Free.antt =====
-- kernel/mem/pmm.c: `PMM_FreePhysicalPage`, and how it goes together with an allocation.
use valecium.Prelude.{
  ℕ, ◌+◌, ◌*◌, ◌/◌, ◌%◌, ◌<◌, ◌≡◌, ◌≢◌, refl, sym, ◌∙◌, true, false, not, ◌&&◌, arith, ◌==◌, ==_iff,
  if◌then◌else◌, inl, inr, Bool-cases,
}
use valecium.Mem.Pmm.{
  Pmm, page_size, bitmap_set, bitmap_clear, bitmap_is_set, allocate_page, free_page, is_page_free,
}
use valecium.Mem.Pmm.Bits.{is_set-clear, AllBytes}
use valecium.Mem.Pmm.Count.{IsValid, set-IsValid, clear-IsValid, allocated-clear}
use valecium.Mem.Pmm.Alloc.{
  IsLowest, Takes, allocate-Takes, allocate-IsValid, allocate-set, Takes-set,
}

-- `addr` is the address of a managed page.
abbrev pub IsPage : Pmm → ℕ → Type 0
IsPage s addr = (addr % page_size ≡ 0) × (addr / page_size < s.total)

module _ (s : Pmm) (addr : ℕ) where
  pub free_page-other : ¬ IsPage s addr → free_page addr s ≡ s
  unfolding free_page
  free_page-other other = ground arith

  pub free_page-unused : bitmap_is_set s (addr / page_size) ≡ false → free_page addr s ≡ s
  unfolding free_page
  free_page-unused e = ground arith

  pub free_page-used :
      s.mapped ≡ true
      → IsPage s addr
      → bitmap_is_set s (addr / page_size) ≡ true
      → free_page addr s ≡ bitmap_clear s (addr / page_size)
  unfolding free_page
  free_page-used ready page e = ground arith

  -- Freeing keeps the invariant, whatever the address.
  pub free_page-IsValid : IsValid s → IsValid (free_page addr s)
  unfolding free_page
  free_page-IsValid v = ground (arith, clear-IsValid (addr / page_size) v)

  is_page_free_of_unused :
      s.mapped ≡ true
      → IsPage s addr
      → bitmap_is_set s (addr / page_size) ≡ false
      → is_page_free s addr ≡ true
  unfolding is_page_free
  is_page_free_of_unused ready page e = ground arith

  cleared-IsPage : IsPage s addr → IsPage (bitmap_clear s (addr / page_size)) addr
  unfolding bitmap_clear
  cleared-IsPage page = page

  cleared-mapped : s.mapped ≡ true → (bitmap_clear s (addr / page_size)).mapped ≡ true
  unfolding bitmap_clear
  cleared-mapped ready = ready

pub total-free_page : (s : Pmm) (addr : ℕ) → (free_page addr s).total ≡ s.total
unfolding free_page bitmap_clear
total-free_page s addr = ground arith

-- A page is spared by freeing an address outside it.
pub is_set-free_page :
    (s : Pmm) (addr p : ℕ)
    → AllBytes s
    → addr / page_size ≢ p
    → bitmap_is_set (free_page addr s) p ≡ bitmap_is_set s p
unfolding free_page
is_set-free_page s addr p h other = ground (arith, is_set-clear s (addr / page_size) p h)

-- What freeing `addr` does, in terms of the pages.
pub record Releases (s : Pmm) (addr : ℕ) (t : Pmm) : Type 0 where
  pub used : (q : ℕ) → bitmap_is_set t q ≡ (not (addr / page_size == q) && bitmap_is_set s q)
  pub allocated : t.allocated + (if bitmap_is_set s (addr / page_size) then 1 else 0) ≡ s.allocated
  pub reported : is_page_free t addr ≡ true

Releases-used :
    {s : Pmm} (addr : ℕ)
    → IsValid s
    → IsPage s addr
    → bitmap_is_set s (addr / page_size) ≡ true
    → Releases s addr (bitmap_clear s (addr / page_size))
Releases-used {s} addr v page e =
    let p = addr / page_size in
    let clear = λ (q : ℕ). is_set-clear s p q v.bytes in
    record {
      used = clear;
      allocated = rw e (allocated-clear p v page.1 e).0;
      reported =
          is_page_free_of_unused (bitmap_clear s p) addr (cleared-mapped s addr v.ready)
            (cleared-IsPage s addr page) (ground (arith, clear p));
    }

Releases-unused :
    {s : Pmm} (addr : ℕ)
    → IsValid s
    → IsPage s addr
    → bitmap_is_set s (addr / page_size) ≡ false
    → Releases s addr s
Releases-unused {s} addr v page e = record {
  used = λ q. elim (Bool-cases (addr / page_size == q)) [
    | inl at ↦ let unset : bitmap_is_set s q ≡ false = rw ((==_iff _ q).0 at) at e in ground arith
    | inr off ↦ rw off
  ];
  allocated = rw e (omega arith);
  reported = is_page_free_of_unused s addr v.ready page e;
}

-- Freeing the address of a managed page makes that page free, which `PMM_IsPhysicalPageFree`
-- reports, and leaves every other page as it was; the counter falls by one exactly if the page
-- was in use.
pub free_page-Releases :
    {s : Pmm} (addr : ℕ) → IsValid s → IsPage s addr → Releases s addr (free_page addr s)
free_page-Releases {s} addr v page = elim (Bool-cases (bitmap_is_set s (addr / page_size))) [
  | inl e ↦ rw (free_page-used s addr v.ready page e) (Releases-used addr v page e)
  | inr e ↦ rw (free_page-unused s addr e) (Releases-unused addr v page e)
]

Releases-Takes :
    {s t u : Pmm} (addr : ℕ)
    → bitmap_is_set s (addr / page_size) ≡ false
    → Takes s (addr / page_size) t
    → Releases t addr u
    → ((q : ℕ) → bitmap_is_set u q ≡ bitmap_is_set s q) × (u.allocated ≡ s.allocated)
Releases-Takes {s} {t} {u} addr e takes gives = (
  λ q. elim (Bool-cases (addr / page_size == q)) [
    | inl at ↦
        let unset : bitmap_is_set s q ≡ false = rw ((==_iff _ q).0 at) at e in
        rw (gives.used q, takes.used q, at, unset)
    | inr off ↦ rw (gives.used q, takes.used q, off)
  ],
  ground (arith, takes.used (addr / page_size), takes.allocated, gives.allocated),
)

-- Freeing what was just allocated gives back the set of pages in use and the counter.
pub free-allocate :
    {s : Pmm} (p : ℕ)
    → IsValid s
    → IsLowest s p
    → let (addr, t) = allocate_page s in
      ((q : ℕ) → bitmap_is_set (free_page addr t) q ≡ bitmap_is_set s q)
      × ((free_page addr t).allocated ≡ s.allocated)
free-allocate {s} p v low =
    let back : p * page_size / page_size ≡ p = omega arith in
    let takes = Takes-set p v low in
    let fit : p * page_size / page_size < (bitmap_set s p).total =
      omega (arith, low.inside, takes.total) in
    let v' = set-IsValid p v low.inside low.free in
    rw (allocate-set p v low) (
      Releases-Takes (p * page_size) (rw back low.free) (rw back takes)
        (free_page-Releases (p * page_size) v' (omega arith, fit)))

-- An address that was allocated and freed again is the next one to be handed out.
pub allocate-free-allocate :
    {s : Pmm} (p : ℕ)
    → IsValid s
    → IsLowest s p
    → let (addr, t) = allocate_page s in (allocate_page (free_page addr t)).0 ≡ addr
allocate-free-allocate {s} p v low =
    let (addr, takes) = allocate-Takes p v low in
    let u = free_page (allocate_page s).0 (allocate_page s).1 in
    let same : (q : ℕ) → bitmap_is_set u q ≡ bitmap_is_set s q = (free-allocate p v low).0 in
    let total = total-free_page (allocate_page s).1 (allocate_page s).0 in
    let again : IsLowest u p = record {
      inside = omega (arith, total, takes.total, low.inside);
      free = same p ∙ low.free;
      below = λ q lt. same q ∙ low.below q lt;
    } in
    (allocate-Takes p (free_page-IsValid _ _ (allocate-IsValid v)) again).0 ∙ sym addr

-- No page is protected from being freed. Once page 0 is freed, the next allocation takes it and
-- returns 0, the value that reports failure, although a page was taken and counted.
pub allocate-free_zero :
    {s : Pmm}
    → IsValid s
    → 0 < s.total
    → let t = free_page 0 s in ((allocate_page t).0 ≡ 0) × Takes t 0 (allocate_page t).1
allocate-free_zero {s} v some_page =
    let gives = free_page-Releases {s = s} 0 v (refl, some_page) in
    let low : IsLowest (free_page 0 s) 0 = record {
      inside = omega (arith, total-free_page s 0);
      free = gives.used 0;
      below = λ q lt. absurd (omega arith);
    } in
    allocate-Takes 0 (free_page-IsValid s 0 v) low
